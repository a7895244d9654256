-- ===== src/Locks/Tests.antt =====
-- kernel/spinlock.c with processors 0 and 1.
use os_lab.Base.{ℕ, ◌≡◌, refl, true, false, update, ok}
use os_lab.Locks.{Cpu, acquire, holding, push_off}
use os_lab.Locks.Exclusion.{System, ran, enters, masks, Reachable, here, after, Reachable-exclusive}

abbrev idle : Cpu
idle = record { noff = 0; intena = false; intr = true }

abbrev start : System
start = record { lock = record { locked = false; cpu = 0 }; cpus = λ i. idle; inside = λ i. false }

abbrev entered : System
entered = ran 1 true (record { locked = true; cpu = 2 }, push_off idle) start

entering :
    acquire 1 (start.lock, start.cpus 1) ≡ ok (record { locked = true; cpu = 2 }, push_off idle)
unfolding acquire
entering = refl

abbrev masked : System
masked = record entered { cpus = update entered.cpus 0 (push_off (entered.cpus 0)) }

masked-Reachable : Reachable start masked
masked-Reachable =
    after entered masked
      (after start entered here
        (enters 1 start (record { locked = true; cpu = 2 }, push_off idle) entering))
      (masks 0 entered)

Reachable-exclusive_example :
    (holding 1 masked.lock ≡ true)
    × ((masked.cpus 1).intr ≡ false)
    × ((j : ℕ) → masked.inside j ≡ true → j ≡ 1)
Reachable-exclusive_example =
    Reachable-exclusive start masked 1 (record { empty = λ i. refl; unmasked = λ i. refl })
      masked-Reachable refl
