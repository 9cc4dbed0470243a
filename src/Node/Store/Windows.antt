-- ===== src/Node/Store/Windows.antt =====
-- The timeout window of a transaction, by `get_tx_timeout_window` of node_state.rs.
use mathlib.Core.Path.{subst}
use truth_seeker.Common.{
  sym, ◌∙◌, ℕ, ◌≡◌, ◌<◌, refl, Bool, true, false, none, some, List, [], ◌∷◌, string_eq, ltb, leb,
  arith, ◌⊎◌, inl, inr, Option-cases, All,
}
use truth_seeker.Common.Maps.{get}
use truth_seeker.Sdk.Types.{Blob, TimeoutWindow, no_timeout, timeout}
use truth_seeker.Node.Types.{Contract}
use truth_seeker.Node.Changes.{Contracts}
use truth_seeker.Node.Store.{NodeStateStore, min_window, fold_windows, get_tx_timeout_window}

-- The order of the source on windows.
abbrev pub le_window : TimeoutWindow → TimeoutWindow → Bool
le_window w no_timeout = true
le_window no_timeout (timeout b) = false
le_window (timeout a) (timeout b) = leb a b

-- The window is at most that of the blob's contract, if that is registered.
abbrev pub IsWithin : Contracts → TimeoutWindow → Blob → Type 0
IsWithin contracts w blob =
    (get contracts blob.contract_name ≡ none)
    ⊎ ((c : Contract) × (get contracts blob.contract_name ≡ some c)
        × (le_window w c.timeout_window ≡ true))

-- The window is that of the contract of one of the blobs.
abbrev pub IsOfOne : Contracts → TimeoutWindow → List Blob → Type 0
IsOfOne contracts w [] = ⊥
IsOfOne contracts w (blob ∷ blobs) =
    ((c : Contract) × (get contracts blob.contract_name ≡ some c) × (w ≡ c.timeout_window))
    ⊎ IsOfOne contracts w blobs

le_window_refl : (w : TimeoutWindow) → le_window w w ≡ true
le_window_refl no_timeout = refl
le_window_refl (timeout a) = ground arith

le_window_trans :
    (u v w : TimeoutWindow) → le_window u v ≡ true → le_window v w ≡ true → le_window u w ≡ true
le_window_trans u v no_timeout h k = refl
le_window_trans u no_timeout (timeout c) h k = cc
le_window_trans no_timeout (timeout b) (timeout c) h k = cc
le_window_trans (timeout a) (timeout b) (timeout c) h k = ground arith

min_window_left : (v w : TimeoutWindow) → le_window (min_window v w) v ≡ true
min_window_left no_timeout w = refl
min_window_left (timeout a) no_timeout = ground arith
min_window_left (timeout a) (timeout b) = ground arith

min_window_right : (v w : TimeoutWindow) → le_window (min_window v w) w ≡ true
min_window_right no_timeout w = le_window_refl w
min_window_right (timeout a) no_timeout = refl
min_window_right (timeout a) (timeout b) = ground arith

min_window_cases : (v w : TimeoutWindow) → (min_window v w ≡ v) ⊎ (min_window v w ≡ w)
min_window_cases no_timeout w = inr refl
min_window_cases (timeout a) no_timeout = inl refl
min_window_cases (timeout a) (timeout b) = ground arith

lt→ltb : (a b : ℕ) → a < b → ltb a b ≡ true
lt→ltb a b h = ground arith

module _ (contracts : Contracts) where
  fold_below :
      (w : TimeoutWindow) (blobs : List Blob)
      → le_window (fold_windows min_window contracts w blobs) w ≡ true
  unfolding fold_windows
  fold_below w [] = le_window_refl w
  fold_below w (blob ∷ blobs) = elim (Option-cases (get contracts blob.contract_name)) [
    | inl absent ↦ rw (absent, fold_windows) (fold_below w blobs)
    | inr (c, found) ↦
        rw (found, fold_windows)
          (le_window_trans (fold_windows min_window contracts (min_window w c.timeout_window) blobs)
            (min_window w c.timeout_window) w (fold_below (min_window w c.timeout_window) blobs)
            (min_window_left w c.timeout_window))
  ]

  fold-absent :
      (w : TimeoutWindow) (blob : Blob) (blobs : List Blob)
      → get contracts blob.contract_name ≡ none
      → fold_windows min_window contracts w (blob ∷ blobs)
        ≡ fold_windows min_window contracts w blobs
  unfolding fold_windows
  fold-absent w blob blobs absent = rw (absent, fold_windows) refl

  fold-found :
      (w : TimeoutWindow) (blob : Blob) (blobs : List Blob) (c : Contract)
      → get contracts blob.contract_name ≡ some c
      → fold_windows min_window contracts w (blob ∷ blobs)
        ≡ fold_windows min_window contracts (min_window w c.timeout_window) blobs
  unfolding fold_windows
  fold-found w blob blobs c found = rw (found, fold_windows) refl

  fold-IsWithin :
      (w : TimeoutWindow) (blobs : List Blob)
      → All (IsWithin contracts (fold_windows min_window contracts w blobs)) blobs
  fold-IsWithin w [] = tt
  fold-IsWithin w (blob ∷ blobs) = elim (Option-cases (get contracts blob.contract_name)) [
    | inl absent ↦ (
      inl absent,
      subst (λ x. All (IsWithin contracts x) blobs) (sym (fold-absent w blob blobs absent))
          (fold-IsWithin w blobs),
    )
    | inr (c, found) ↦
        let next = min_window w c.timeout_window in
        subst (λ x. All (IsWithin contracts x) (blob ∷ blobs))
          (sym (fold-found w blob blobs c found))
          (
            inr (
              c,
              found,
              le_window_trans (fold_windows min_window contracts next blobs) next c.timeout_window
                  (fold_below next blobs) (min_window_right w c.timeout_window),
            ),
            fold-IsWithin next blobs,
          )
  ]

  fold_attained :
      (w : TimeoutWindow) (blobs : List Blob)
      → (fold_windows min_window contracts w blobs ≡ w)
        ⊎ IsOfOne contracts (fold_windows min_window contracts w blobs) blobs
  fold_attained w [] = inl (unfold fold_windows in refl)
  fold_attained w (blob ∷ blobs) = elim (Option-cases (get contracts blob.contract_name)) [
    | inl absent ↦
        subst (λ x. (x ≡ w) ⊎ IsOfOne contracts x (blob ∷ blobs))
          (sym (fold-absent w blob blobs absent))
          (elim (fold_attained w blobs) [ inl same ↦ inl same | inr one ↦ inr (inr one) ])
    | inr (c, found) ↦
        let next = min_window w c.timeout_window in
        subst (λ x. (x ≡ w) ⊎ IsOfOne contracts x (blob ∷ blobs))
          (sym (fold-found w blob blobs c found))
          (elim (fold_attained next blobs) [
            | inr one ↦ inr (inr one)
            | inl same ↦ elim (min_window_cases w c.timeout_window) [
              | inl left ↦ inl (same ∙ left)
              | inr right ↦ inr (inl (c, found, same ∙ right))
            ]
          ])
  ]

-- Above the height 445 000, the window of a transaction is at most that of each registered contract
-- of its blobs, and it is the window of one of them, or there is none.
pub get_tx_timeout_window_least :
    (s : NodeStateStore) (blobs : List Blob)
    → 445_000 < s.current_height
    → let w = get_tx_timeout_window s blobs in
      All (IsWithin s.contracts w) blobs × ((w ≡ no_timeout) ⊎ IsOfOne s.contracts w blobs)
unfolding get_tx_timeout_window
get_tx_timeout_window_least s blobs h =
    rw (lt→ltb 445_000 s.current_height h, get_tx_timeout_window)
      (fold-IsWithin s.contracts no_timeout blobs, fold_attained s.contracts no_timeout blobs)
