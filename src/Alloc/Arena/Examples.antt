-- ===== src/Alloc/Arena/Examples.antt =====
-- A batch of two nodes, pushed while another thread takes the head once.
use odyssey_tasks.Prelude.{◌≡◌, refl, false, [], ◌∷◌, ◌==◌, if◌then◌else◌, arith}
use odyssey_tasks.Prelude.Outcome.{ok}
use odyssey_tasks.Alloc.Arena.{CentralArena, Interference, set_bin, pop_batch, push_batch}
use odyssey_tasks.Alloc.Arena.Push.{Leads, Exchange, push_batch_lem}

-- The bin of class 2 has the nodes 7 and 9, and 3 leads to 5.
abbrev arena : CentralArena
arena = record {
  central_bins = λ c. if c == 2 then 7 else 0;
  next = λ p. if p == 7 then 9 else if p == 3 then 5 else 0;
}

abbrev takes_head : Interference
takes_head = record { act = λ s. set_bin 2 9 s; spurious = false }

abbrev nothing : Interference
nothing = record { act = λ s. s; spurious = false }

-- One node is taken, however many are asked for.
pop_two : pop_batch (nothing ∷ []) 2 2 arena ≡ ok (7, set_bin 2 9 arena)
unfolding pop_batch
pop_two = refl

push_batch_lem_example :
    (s' : CentralArena) × (push_batch (takes_head ∷ nothing ∷ []) 2 3 5 2 arena ≡ ok s')
    × (x : Exchange (takes_head ∷ nothing ∷ []) 2 3 5 arena s') × Leads s'.next 3
        (3 ∷ 5 ∷ [])
        x.old_head
unfolding set_bin
push_batch_lem_example =
    push_batch_lem 2 3 5 (3 ∷ []) (omega arith, tt) (takes_head ∷ []) nothing 2 arena
      ((λ s. (refl, (refl, tt))), tt) (λ s. (refl, (refl, tt))) (refl, λ s. refl) (omega arith)
      (omega arith) (refl, refl)
