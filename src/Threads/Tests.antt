-- ===== src/Threads/Tests.antt =====
-- Four threads, and the theorems at them.
use cs350_os.Base.{
  ◌∷◌, [], some, arith, ◌≡◌, none, done, refl, replicate, ◌++◌, if◌then◌else◌, leb, ◌&&◌,
}
use cs350_os.Kmalloc.{roomy}
use cs350_os.Array.Inv as ArrayInv
use cs350_os.Queue.Inv as QueueInv
use cs350_os.Threads.{Threads, thread_wakeup, thread_wakeup_n}
use cs350_os.Threads.Inv.{sleeping, ready, HasRoom, SameBut}
use cs350_os.Threads.Wake.{waiting, others, thread_wakeup-Woken}
use cs350_os.Threads.WakeN.{thread_wakeup_n_all}
use cs350_os.Threads.Yield.{turns, yields, CanYield, thread_yield_round}

-- Thread 500 runs, 800 is ready, and 600 and 700 sleep on the address 9.
abbrev four : Threads
four = record {
  current = 500;
  spl = 15;
  in_interrupt = 0;
  sleepers = record { num = 2; max = 2; v = some (600 ∷ 700 ∷ []) };
  zombies = record { num = 0; max = 0; v = none };
  runqueue = record { size = 8; nextwrite = 1; nextread = 0; slots = 800 ∷ replicate 7 0 };
  sleepaddr = λ t. if leb 600 t && leb t 700 then 9 else 0;
}

four-queue : QueueInv.IsValid four.runqueue
four-queue = record { sized = refl; write_in = omega arith; read_in = omega arith }

four-array : ArrayInv.IsValid four.sleepers
four-array = record { bounded = omega arith; sized = refl }

four-HasRoom : HasRoom four 2
four-HasRoom = record {
  off = omega arith;
  array = four-array;
  queue = four-queue;
  room = omega arith;
}

four-CanYield : CanYield four
four-CanYield = record {
  real = (omega arith, (omega arith, tt));
  valid = four-queue;
  room = omega arith;
}

thread_wakeup-Woken_example :
    (s' : Threads) × (thread_wakeup roomy four 9 ≡ done s')
    × (sleeping s' ≡ others four.sleepaddr 9 (sleeping four))
    × (ready s' ≡ ready four ++ waiting four.sleepaddr 9 (sleeping four))
    × SameBut four s'
thread_wakeup-Woken_example = thread_wakeup-Woken roomy four 9 four-HasRoom

thread_wakeup_n_all_example :
    (s' : Threads) × (thread_wakeup_n roomy four 9 1 ≡ done s')
    × (sleeping s' ≡ [])
    × (ready s' ≡ ready four ++ sleeping four)
thread_wakeup_n_all_example =
    thread_wakeup_n_all roomy four 9 1 (omega arith) (omega arith) (refl, (refl, tt)) four-HasRoom

thread_yield_round_example :
    ((s' : Threads) × (yields roomy 1 four ≡ done (some s'))
      × (turns s' ≡ 800 ∷ 500 ∷ [])
      × (sleeping s' ≡ sleeping four))
    × ((s' : Threads) × (yields roomy 2 four ≡ done (some s'))
        × (turns s' ≡ turns four)
        × (sleeping s' ≡ sleeping four))
thread_yield_round_example = thread_yield_round roomy four (500 ∷ []) (800 ∷ []) four-CanYield refl
