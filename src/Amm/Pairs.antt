-- ===== src/Amm/Pairs.antt =====
-- The reserves of a pair of tokens, in either order of the two names.
use truth_seeker.Common.{
  ℕ, ◌≡◌, ◌≢◌, refl, sym, String, Bool, true, false, Option, none, some, arith, ==_ne, string_eq,
  pair_eq, pair_beq_iff, str_leb, str_leb_total, str_leb_antisym, if◌then◌else◌, ok, err,
}
use truth_seeker.Common.Maps.{Map, get, insert, get-insert}
use truth_seeker.Amm.{Amm, Amounts, TokenPair, pair_exists, Reply, normalize, create_new_pair}

abbrev pub orient : Bool → Option Amounts → Option Amounts
orient b none = none
orient true (some (x, y)) = some (x, y)
orient false (some (x, y)) = some (y, x)

-- What the contract holds of `a` and of `b` for the exchange of the two.
abbrev pub reserves : Amm → String → String → Option Amounts
reserves s a b = orient (str_leb a b) (get s.pairs (normalize a b))

pub normalize_comm : (a b : String) → normalize a b ≡ normalize b a
unfolding normalize
normalize_comm a b = ground (arith, str_leb_total a b, str_leb_total b a, str_leb_antisym a b)

create_created :
    (s : Amm) (a b : String) (m : Amounts) (r : Reply)
    → (create_new_pair s (a, b) m).1 ≡ ok r
    → (a ≢ b)
      × ((create_new_pair s (a, b) m).0 ≡ record { pairs = insert s.pairs (normalize a b) m })
unfolding create_new_pair
create_created s a b m r h = (λ e. ground (arith, string_eq.beq_iff a b), ground arith)

create_existing :
    (s : Amm) (a b : String) (p : TokenPair) (m n : Amounts)
    → a ≢ b
    → normalize a b ≡ p
    → get s.pairs p ≡ some n
    → create_new_pair s (a, b) m ≡ (s, err (pair_exists p))
unfolding create_new_pair
create_existing s a b p m n ne named old = rw (named, old, ==_ne {A = String} a b ne) refl

pub get-insert_self :
    (m : Map TokenPair Amounts) (p : TokenPair) (v : Amounts) → get (insert m p v) p ≡ some v
get-insert_self m p v = ground (arith, get-insert m p p v, pair_beq_iff p p)

-- A pair that was created is refused from then on, whichever way its tokens are named.
pub create_twice :
    (s : Amm) (a b : String) (m n : Amounts) (r : Reply)
    → (create_new_pair s (a, b) m).1 ≡ ok r
    → let s' = (create_new_pair s (a, b) m).0 in
      (create_new_pair s' (a, b) n ≡ (s', err (pair_exists (normalize a b))))
      × (create_new_pair s' (b, a) n ≡ (s', err (pair_exists (normalize a b))))
create_twice s a b m n r h =
    let (ne, made) = create_created s a b m r h in
    let there = get-insert_self s.pairs (normalize a b) m in
    let s₁ : Amm = record { pairs = insert s.pairs (normalize a b) m } in
    rw made (
      create_existing s₁ a b (normalize a b) n m ne refl there,
      create_existing s₁ b a (normalize a b) n m (λ e. ne (sym e)) (normalize_comm b a) there,
    )

-- What a new pair holds of its two tokens: the amounts in the order in which they were given only
-- if the names are in order. Otherwise the two amounts are exchanged.
pub reserves-create_new_pair :
    (s : Amm) (a b : String) (m n : ℕ)
    → a ≢ b
    → get s.pairs (normalize a b) ≡ none
    → reserves (create_new_pair s (a, b) (m, n)).0 a b
      ≡ some (if str_leb a b then (m, n) else (n, m))
unfolding create_new_pair
reserves-create_new_pair s a b m n ne fresh = ground (
  arith,
  string_eq.beq_iff a b,
  get-insert s.pairs (normalize a b) (normalize a b) (m, n),
  pair_beq_iff (normalize a b) (normalize a b),
)
