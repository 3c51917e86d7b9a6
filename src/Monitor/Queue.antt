-- ===== src/Monitor/Queue.antt =====
-- src/engine.rs: the sets of ticks behind the tick checks, counted at one tick.
pub mod Once
pub mod Reports
use qubic_random_client.Base.{
  ℕ, zero, suc, ◌+◌, ◌≤◌, ◌<◌, ◌≡◌, ◌≢◌, ◌⊎◌, refl, Bool, true, false, List, [], ◌∷◌, Option, none,
  some, arith, inl, inr, Bool-cases, if◌then◌else◌, leb, ltb, ◌==◌, ◌||◌, insert, remove, retain,
  contains,
}
use qubic_random_client.Monitor.{Monitor, ReadyCheck, PendingTickCheck}
use qubic_random_client.Monitor.Checks.{
  insert_ready, remove_ready, newest_due, newer, key_eq, key_lt,
}

-- How often a tick stands in a list.
abbrev pub count : ℕ → List ℕ → ℕ
count t [] = 0
count t (x ∷ xs) = (if x == t then 1 else 0) + count t xs

-- Strictly ascending, from the bound on.
abbrev pub Up : ℕ → List ℕ → Type 0
Up b [] = Unit {0}
Up b (x ∷ xs) = (b ≤ x) × Up (suc x) xs

count-below : (t b : ℕ) (xs : List ℕ) → Up b xs → t < b → count t xs ≡ 0
count-below t b [] u l = refl
count-below t b (x ∷ xs) u l = ground (arith, count-below t (suc x) xs u.1)

pub Up-insert : (b t : ℕ) (xs : List ℕ) → b ≤ t → Up b xs → Up b (insert t xs)
Up-insert b t [] l u = (l, tt)
Up-insert b t (x ∷ xs) l u = ground (arith, Up-insert (suc x) t xs)

Up-weaken : (a b : ℕ) (xs : List ℕ) → a ≤ b → Up b xs → Up a xs
Up-weaken a b [] l u = tt
Up-weaken a b (x ∷ xs) l u = (omega arith, u.1)

pub Up-remove : (b t : ℕ) (xs : List ℕ) → Up b xs → Up b (remove t xs)
Up-remove b t [] u = tt
Up-remove b t (x ∷ xs) u = ground (arith, Up-remove (suc x) t xs u.1, Up-weaken b (suc x) xs)

pub Up-retain : (p : ℕ → Bool) (b : ℕ) (xs : List ℕ) → Up b xs → Up b (retain p xs)
Up-retain p b [] u = tt
Up-retain p b (x ∷ xs) u =
    ground (arith, Up-retain p (suc x) xs u.1, Up-weaken b (suc x) (retain p xs))

-- An entry of the map of ready checks, by its key.
abbrev pub has_ready : ReadyCheck → List ReadyCheck → Bool
has_ready r [] = false
has_ready r (x ∷ xs) = key_eq r x || has_ready r xs

newest_due-from :
    (now : ℕ) (rs : List ReadyCheck) (best : Option ReadyCheck) (r : ReadyCheck)
    → newest_due now rs best ≡ some r
    → (best ≡ some r) ⊎ (has_ready r rs ≡ true)
unfolding newest_due
newest_due-from now [] best r h = inl h
newest_due-from now (x ∷ xs) none r h = elim (Bool-cases (leb x.at now)) [
  | inl l ↦ elim (newest_due-from now xs (some x) r (rw l at h)) [
    | inl e ↦ inr (ground arith)
    | inr k ↦ inr (ground arith)
  ]
  | inr l ↦ elim (newest_due-from now xs none r (rw l at h)) [
    | inl e ↦ inl e
    | inr k ↦ inr (ground arith)
  ]
]
newest_due-from now (x ∷ xs) (some b) r h = elim (Bool-cases (leb x.at now)) [
  | inl l ↦ elim (newest_due-from now xs (newer (some b) x) r (rw l at h)) [
    | inl e ↦ ground arith
    | inr k ↦ inr (ground arith)
  ]
  | inr l ↦ elim (newest_due-from now xs (some b) r (rw l at h)) [
    | inl e ↦ inl e
    | inr k ↦ inr (ground arith)
  ]
]

-- The check that is started is one of the ready ones.
pub newest_due-has_ready :
    (now : ℕ) (rs : List ReadyCheck) (r : ReadyCheck)
    → newest_due now rs none ≡ some r
    → has_ready r rs ≡ true
newest_due-has_ready now rs r h = elim (newest_due-from now rs none r h) [
  | inl e ↦ absurd (ground arith)
  | inr k ↦ k
]

module _ (t : ℕ) where
  pub count-insert : (b : ℕ) (xs : List ℕ) → Up b xs → count t (insert t xs) ≡ 1
  count-insert b [] u = ground arith
  count-insert b (x ∷ xs) u =
      ground (arith, count-insert (suc x) xs u.1, count-below t (suc x) xs u.1)

  pub count-insert_new : (xs : List ℕ) → count t xs ≡ 0 → count t (insert t xs) ≡ 1
  count-insert_new [] h = ground arith
  count-insert_new (x ∷ xs) h = ground (arith, count-insert_new xs)

  pub count-insert_some : (xs : List ℕ) → 1 ≤ count t (insert t xs)
  count-insert_some [] = ground arith
  count-insert_some (x ∷ xs) = ground (arith, count-insert_some xs)

  pub count-insert_other : (x : ℕ) (xs : List ℕ) → x ≢ t → count t (insert x xs) ≡ count t xs
  count-insert_other x [] n = ground arith
  count-insert_other x (y ∷ ys) n = ground (arith, count-insert_other x ys n)

  pub count-remove : (b : ℕ) (xs : List ℕ) → Up b xs → count t (remove t xs) ≡ 0
  count-remove b [] u = refl
  count-remove b (x ∷ xs) u =
      ground (arith, count-remove (suc x) xs u.1, count-below t (suc x) xs u.1)

  pub count-remove_other : (x : ℕ) (xs : List ℕ) → x ≢ t → count t (remove x xs) ≡ count t xs
  count-remove_other x [] n = refl
  count-remove_other x (y ∷ ys) n = ground (arith, count-remove_other x ys n)

  pub count-retain :
      (p : ℕ → Bool) (xs : List ℕ) → count t (retain p xs) ≡ (if p t then count t xs else 0)
  count-retain p [] = ground arith
  count-retain p (x ∷ xs) = ground (arith, count-retain p xs)

  pub count-contains : (xs : List ℕ) → contains t xs ≡ false → count t xs ≡ 0
  count-contains [] h = refl
  count-contains (x ∷ xs) h = ground (arith, count-contains xs)

  -- How many entries the tick has in the map of ready checks.
  abbrev pub ready_count : List ReadyCheck → ℕ
  ready_count [] = 0
  ready_count (r ∷ rs) = (if r.tick == t then 1 else 0) + ready_count rs

  pub ready_count-insert_new :
      (r : ReadyCheck) (rs : List ReadyCheck)
      → r.tick ≡ t
      → ready_count rs ≡ 0
      → ready_count (insert_ready r rs) ≡ 1
  ready_count-insert_new r [] e h = ground arith
  ready_count-insert_new r (x ∷ xs) e h = ground (arith, ready_count-insert_new r xs e)

  pub ready_count-insert_other :
      (r : ReadyCheck) (rs : List ReadyCheck)
      → r.tick ≢ t
      → ready_count (insert_ready r rs) ≡ ready_count rs
  ready_count-insert_other r [] n = ground arith
  ready_count-insert_other r (x ∷ xs) n = ground (arith, ready_count-insert_other r xs n)

  pub ready_count-retain :
      (p : ℕ → Bool) (rs : List ReadyCheck)
      → ready_count (retain (λ r. p r.tick) rs) ≡ (if p t then ready_count rs else 0)
  ready_count-retain p [] = ground arith
  ready_count-retain p (r ∷ rs) = ground (arith, ready_count-retain p rs)

  pub ready_count-remove_other :
      (r : ReadyCheck) (rs : List ReadyCheck)
      → r.tick ≢ t
      → ready_count (remove_ready r rs) ≡ ready_count rs
  ready_count-remove_other r [] n = refl
  ready_count-remove_other r (x ∷ xs) n = ground (arith, ready_count-remove_other r xs n)

  pub ready_count-remove :
      (r : ReadyCheck) (rs : List ReadyCheck)
      → r.tick ≡ t
      → has_ready r rs ≡ true
      → ready_count (remove_ready r rs) + 1 ≡ ready_count rs
  ready_count-remove r [] e h = absurd (ground arith)
  ready_count-remove r (x ∷ xs) e h = ground (arith, ready_count-remove r xs e)
