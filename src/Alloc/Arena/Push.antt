-- ===== src/Alloc/Arena/Push.antt =====
-- A batch that is pushed stands in front of the nodes that the bin has at the exchange.
use odyssey_tasks.Prelude.{
  ℕ, ◌<◌, ◌≡◌, ◌≢◌, refl, ap, ◌∙◌, true, false, List, [], ◌∷◌, ◌++◌, ◌||◌, All, leb, ◌==◌,
  Bool-cases, inl, inr, arith,
}
use odyssey_tasks.Prelude.Outcome.{ok}
use odyssey_tasks.Alloc.Cache.{num_small_classes, set}
use odyssey_tasks.Alloc.Arena.{
  CentralArena, Interference, exchanges, set_bin, push_loop, push_batch,
}

-- From `first`, these nodes one after another lead to `last`.
abbrev pub Leads : (ℕ → ℕ) → ℕ → List ℕ → ℕ → Type 0
Leads next first [] last = first ≡ last
Leads next first (x ∷ xs) last = (first ≡ x) × Leads next (next x) xs last

-- The other threads leave these nodes alone.
abbrev pub Spares : List ℕ → Interference → Type 0
Spares nodes others = (s : CentralArena) → All (λ x. (others.act s).next x ≡ s.next x) nodes

-- They do not change the bin, and the exchange does not fail without cause.
abbrev pub IsQuiet : ℕ → Interference → Type 0
IsQuiet size_class others =
    (others.spurious ≡ false)
    × ((s : CentralArena) → (others.act s).central_bins size_class ≡ s.central_bins size_class)

-- `tail->next.store(old_head)`
abbrev pub linked : ℕ → ℕ → CentralArena → CentralArena
linked tail old_head s = record s { next = set tail old_head s.next }

-- The arena after rounds that came to nothing: in each the last node was linked to some head, and
-- then the other threads acted.
pub data Runs (tail : ℕ) : List Interference → CentralArena → CentralArena → Type 0 where
  start : {s : CentralArena} → Runs tail [] s s
  round :
      {others : Interference} {rounds : List Interference} {s s' : CentralArena} (old_head : ℕ)
      → Runs tail rounds (others.act (linked tail old_head s)) s'
      → Runs tail (others ∷ rounds) s s'

-- Of these rounds one exchanges the bin's head, and those before it came to nothing. The bin has the
-- head `old_head` when it is exchanged, after the other threads of that round have acted.
pub record Exchange (rounds : List Interference) (size_class head tail : ℕ) (s s' : CentralArena)
    : Type 0 where
  pub before : List Interference
  pub others : Interference
  pub after : List Interference
  pub reached : CentralArena
  pub old_head : ℕ
  pub split : rounds ≡ before ++ (others ∷ after)
  pub runs : Runs tail before s reached
  pub found : (others.act (linked tail old_head reached)).central_bins size_class ≡ old_head
  pub exchanged : s' ≡ set_bin size_class head (others.act (linked tail old_head reached))

-- A round more that came to nothing.
Exchange-round :
    (others : Interference) (rounds : List Interference) (size_class head tail old_head : ℕ)
    (s s' : CentralArena)
    → Exchange rounds size_class head tail (others.act (linked tail old_head s)) s'
    → Exchange (others ∷ rounds) size_class head tail s s'
Exchange-round others rounds size_class head tail old_head s s' x = record {
  before = others ∷ x.before;
  others = x.others;
  after = x.after;
  reached = x.reached;
  old_head = x.old_head;
  split = ap (◌∷◌ others) x.split;
  runs = round old_head x.runs;
  found = x.found;
  exchanged = x.exchanged;
}

Leads-same :
    (next next' : ℕ → ℕ) (first : ℕ) (xs : List ℕ) (last : ℕ)
    → All (λ x. next' x ≡ next x) xs
    → Leads next first xs last
    → Leads next' first xs last
Leads-same next next' first [] last same h = h
Leads-same next next' first (x ∷ xs) last same h =
    (h.0, rw same.0 (Leads-same next next' (next x) xs last same.1 h.1))

Leads-append :
    (next : ℕ → ℕ) (first middle last : ℕ) (xs ys : List ℕ)
    → Leads next first xs middle
    → Leads next middle ys last
    → Leads next first (xs ++ ys) last
Leads-append next first middle last [] ys h k = rw h k
Leads-append next first middle last (x ∷ xs) ys h k =
    (h.0, Leads-append next (next x) middle last xs ys h.1 k)

All-spared :
    (next : ℕ → ℕ) (tail old_head : ℕ) (act : ℕ → ℕ) (xs : List ℕ)
    → All (λ x. x ≢ tail) xs
    → All (λ x. act x ≡ set tail old_head next x) xs
    → All (λ x. act x ≡ next x) xs
All-spared next tail old_head act [] other same = tt
All-spared next tail old_head act (x ∷ xs) other same =
    (ground (arith, same.0, other.0), All-spared next tail old_head act xs other.1 same.1)

exchanges-quiet :
    (quiet : Interference) (s : CentralArena) {size_class : ℕ} (expected : ℕ)
    → quiet.spurious ≡ false
    → s.central_bins size_class ≡ expected
    → exchanges quiet s size_class expected ≡ true
unfolding exchanges
exchanges-quiet quiet s expected calm same = ground arith

exchanges-eq :
    (others : Interference) (s : CentralArena) (size_class expected : ℕ)
    → exchanges others s size_class expected ≡ true
    → s.central_bins size_class ≡ expected
unfolding exchanges
exchanges-eq others s size_class expected e = ground arith

module _ (size_class head tail : ℕ) (front : List ℕ) (apart : All (λ x. x ≢ tail) front) where
  -- What the exchange meets: the batch, and behind it the head that was loaded.
  batch_kept :
      (others : Interference) (old_head : ℕ) (s : CentralArena)
      → Spares (tail ∷ front) others
      → Leads s.next head front tail
      → let met = others.act (linked tail old_head s) in
        Leads met.next head front tail × (met.next tail ≡ old_head)
  batch_kept others old_head s spares batch =
      let stored = linked tail old_head s in
      let met = others.act stored in
      let kept = spares stored in
      (
        Leads-same s.next met.next head front tail
            (All-spared s.next tail old_head met.next front apart kept.1) batch,
        ground (arith, kept.0),
      )

  -- What a push comes to.
  abbrev pub Pushed : List Interference → CentralArena → CentralArena → Type 0
  Pushed rounds s s' =
      (x : Exchange rounds size_class head tail s s') × Leads s'.next head (front ++ tail ∷ [])
        x.old_head

  exchange-Pushed :
      (others : Interference) (rounds : List Interference) (old_head : ℕ) (s : CentralArena)
      → Spares (tail ∷ front) others
      → Leads s.next head front tail
      → (others.act (linked tail old_head s)).central_bins size_class ≡ old_head
      → Pushed (others ∷ rounds) s (set_bin size_class head (others.act (linked tail old_head s)))
  unfolding set_bin
  exchange-Pushed others rounds old_head s spares batch same =
      let met = others.act (linked tail old_head s) in
      let (chain, link) = batch_kept others old_head s spares batch in
      (
        record {
          before = [];
          others = others;
          after = rounds;
          reached = s;
          old_head = old_head;
          split = refl;
          runs = start;
          found = same;
          exchanged = refl;
        },
        Leads-append met.next head tail old_head front (tail ∷ []) chain (refl, link),
      )

  push_loop_lem :
      (noise : List Interference) (quiet : Interference) (old_head : ℕ) (s : CentralArena)
      → All (Spares (tail ∷ front)) noise
      → Spares (tail ∷ front) quiet
      → IsQuiet size_class quiet
      → s.central_bins size_class ≡ old_head
      → Leads s.next head front tail
      → (s' : CentralArena) × (push_loop (noise ++ quiet ∷ []) size_class head tail old_head s
          ≡ ok s')
        × Pushed (noise ++ quiet ∷ []) s s'
  unfolding push_loop Exchange-round
  push_loop_lem [] quiet old_head s spared spares still loaded batch =
      let stored = linked tail old_head s in
      let met = quiet.act stored in
      let same : met.central_bins size_class ≡ old_head = still.1 stored ∙ loaded in
      let succeeds : exchanges quiet met size_class old_head ≡ true =
        exchanges-quiet quiet met old_head still.0 same in
      (
        set_bin size_class head met,
        rw succeeds,
        exchange-Pushed quiet [] old_head s spares batch same,
      )
  push_loop_lem (others ∷ noise) quiet old_head s spared spares still loaded batch =
      let met = others.act (linked tail old_head s) in
      let (chain, link) = batch_kept others old_head s spared.0 batch in
      elim (Bool-cases (exchanges others met size_class old_head)) [
        | inl done ↦ (
          set_bin size_class head met,
          rw done,
          exchange-Pushed others (noise ++ quiet ∷ []) old_head s spared.0 batch
              (exchanges-eq others met size_class old_head done),
        )
        | inr failed ↦
            (let (s', e, (x, leads)) =
                push_loop_lem noise quiet (met.central_bins size_class) met spared.1 spares still
                  refl chain in
              (
                s',
                rw failed e,
                (
                  Exchange-round others (noise ++ quiet ∷ []) size_class head tail old_head s s' x,
                  leads,
                ),
              ))
      ]

  -- Pushing a batch of a small class comes to an end once a round is quiet, whatever the other
  -- threads do before to the bins and to nodes outside the batch. One of the rounds exchanges the
  -- bin's head for the batch's first node, on the arena that the other threads have then left; all
  -- else stays as they left it, and the batch's nodes lead from the first one to the head that the
  -- bin had at that moment.
  pub push_batch_lem :
      (noise : List Interference) (quiet : Interference) (count : ℕ) (s : CentralArena)
      → All (Spares (tail ∷ front)) noise
      → Spares (tail ∷ front) quiet
      → IsQuiet size_class quiet
      → 0 < head
      → size_class < num_small_classes
      → Leads s.next head front tail
      → (s' : CentralArena) × (push_batch (noise ++ quiet ∷ []) size_class head tail count s
          ≡ ok s')
        × (x : Exchange (noise ++ quiet ∷ []) size_class head tail s s') × Leads s'.next head
            (front ++ tail ∷ [])
            x.old_head
  unfolding push_batch
  push_batch_lem noise quiet count s spared spares still some_node small batch =
      let goes_on : (head == 0 || leb num_small_classes size_class) ≡ false = ground arith in
      let (s', e, (x, leads)) =
        push_loop_lem noise quiet (s.central_bins size_class) s spared spares still refl batch in
      (s', rw goes_on e, x, leads)
