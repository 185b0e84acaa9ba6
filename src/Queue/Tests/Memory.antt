-- ===== src/Queue/Tests/Memory.antt =====
-- A store in memory with the commands of Redis that the queue uses.
use Prim.Native.String.{◌++◌, slice, len}
use text.Mathlib.TextPositions.{len-append, slice-append_middle}
use distributed_sync_system.Base.{
  ℕ, ◌+◌, ◌-◌, ◌≡◌, ◌≢◌, refl, sym, ap, ap₂, if_pos, ◌∙◌, Bool, true, false, ◌&&◌, none, some, List,
  [], ◌∷◌, String, Dict, lookup, lookup_or, insert, erase, lookup-insert, lookup_or-insert,
  lookup-erase, contains, ite, str_dec, length, arith, if◌then◌else◌,
}
use distributed_sync_system.Queue.Keys.{in_flight_key}
use distributed_sync_system.Queue.Store.{Redis, update, last_of, but_last, is_due}

pub record Table : Type 0 where
  pub hashes : Dict (Dict String)
  pub lists : Dict (List String)
  pub sets : Dict (Dict ℕ)

module _ {V : Type 0} where
  unfoldable pub names : Dict V → List String
  names [] = []
  names ((k, v) ∷ d) = k ∷ names d

  pub names_lem : (i : String) (d : Dict V) → lookup i d ≢ none → contains i (names d) ≡ true
  unfolding names contains lookup
  names_lem i [] h = absurd (h refl)
  names_lem i ((k, v) ∷ d) h = ground (arith, h, names_lem i d)

unfoldable pub keep_if : (String → Bool) → List String → List String
keep_if p [] = []
keep_if p (x ∷ xs) = let rest = keep_if p xs in if p x then x ∷ rest else rest

contains-keep_if :
    (p : String → Bool) (i : String) (xs : List String)
    → contains i (keep_if p xs) ≡ contains i xs && p i
unfolding contains keep_if
contains-keep_if p i [] = refl
contains-keep_if p i (x ∷ xs) = elim (str_dec i x) [
  | yes e ↦ ground (arith, e, contains-keep_if p i xs)
  | no d ↦ ground (arith, d, contains-keep_if p i xs)
]

-- The queue whose set in flight has the key, if there is one.
unfoldable pub between : String → String
between key = slice key 6 (len key - 10)

between_lem : (q : String) → between (in_flight_key q) ≡ q
unfolding between in_flight_key
between_lem q =
    let whole : len ("queue:" ++ (q ++ ":in_flight")) - 10 ≡ len "queue:" + len q =
      omega (arith, len-append "queue:" (q ++ ":in_flight"), len-append q ":in_flight") in
    rw whole (slice-append_middle "queue:" q ":in_flight")

unfoldable pub is_flight : String → Bool
is_flight key = ite (str_dec key (in_flight_key (between key))) true false

unfoldable pub has_members : Dict ℕ → Bool
has_members [] = false
has_members (x ∷ xs) = true

unfoldable pub in_range : ℕ → Dict ℕ → List String
in_range t d = keep_if (λ i. is_due t (lookup i d)) (names d)

pub in_range_lem :
    (t : ℕ) (i : String) (d : Dict ℕ) → contains i (in_range t d) ≡ is_due t (lookup i d)
unfolding in_range is_due
in_range_lem t i d =
    ground (arith, contains-keep_if (λ j. is_due t (lookup j d)) i (names d), names_lem i d)

unfoldable pub flights : Table → List String
flights s = keep_if (λ k. is_flight k && has_members (lookup_or k [] s.sets)) (names s.sets)

has_members_lem : (i : String) (d : Dict ℕ) → lookup i d ≢ none → has_members d ≡ true
unfolding lookup has_members
has_members_lem i [] h = absurd (h refl)
has_members_lem i (x ∷ xs) h = refl

present :
    (k i : String) (d : Dict (Dict ℕ)) → lookup i (lookup_or k [] d) ≢ none → lookup k d ≢ none
unfolding lookup_or lookup
present k i d h e = h (rw (e, lookup_or) refl)

pub flights_lem :
    (q i : String) (s : Table)
    → lookup i (lookup_or (in_flight_key q) [] s.sets) ≢ none
    → contains (in_flight_key q) (flights s) ≡ true
unfolding flights is_flight
flights_lem q i s h =
    let key = in_flight_key q in
    let p : String → Bool = λ k. is_flight k && has_members (lookup_or k [] s.sets) in
    let own : is_flight key ≡ true =
      if_pos (str_dec key (in_flight_key (between key))) (ap in_flight_key (sym (between_lem q)))
        true false in
    let filled = has_members_lem i (lookup_or key [] s.sets) h in
    let listed = names_lem key s.sets (present key i s.sets h) in
    contains-keep_if p key (names s.sets) ∙ ap₂ ◌&&◌ listed (ap₂ ◌&&◌ own filled)

pub flights_match :
    (k : String) (s : Table) → contains k (flights s) ≡ true → (q : String) × (k ≡ in_flight_key q)
unfolding flights is_flight
flights_match k s h =
    let p : String → Bool = λ x. is_flight x && has_members (lookup_or x [] s.sets) in
    let passes = sym (contains-keep_if p k (names s.sets)) ∙ h in
    elim (str_dec k (in_flight_key (between k))) [
      | yes e ↦ (between k, e)
      | no d ↦ absurd (ground (arith, d, passes))
    ]

pub zadd_scores :
    (j k x i : String) (t : ℕ) (d : Dict (Dict ℕ))
    → lookup i (lookup_or j [] (insert k (insert x t (lookup_or k [] d)) d))
      ≡ ite
          (str_dec j k)
          (ite (str_dec i x) (some t) (lookup i (lookup_or k [] d)))
          (lookup i (lookup_or j [] d))
zadd_scores j k x i t d = ground (
  arith,
  lookup_or-insert k j [] (insert x t (lookup_or k [] d)) d,
  lookup-insert x i t (lookup_or k [] d),
)

pub zrem_scores :
    (j k x i : String) (d : Dict (Dict ℕ))
    → lookup i (lookup_or j [] (insert k (erase x (lookup_or k [] d)) d))
      ≡ ite
          (str_dec j k)
          (ite (str_dec i x) none (lookup i (lookup_or k [] d)))
          (lookup i (lookup_or j [] d))
zrem_scores j k x i d = ground (
  arith,
  lookup_or-insert k j [] (erase x (lookup_or k [] d)) d,
  lookup-erase x i (lookup_or k [] d),
)

abbrev pub memory : Redis
memory = record {
  Store = Table;
  hset = λ k fields s. record s {
    hashes = insert k (update fields (lookup_or k [] s.hashes)) s.hashes;
  };
  hgetall = λ k s. lookup_or k [] s.hashes;
  expire = λ k t s. s;
  lpush = λ k x s. record s { lists = insert k (x ∷ lookup_or k [] s.lists) s.lists };
  rpop = λ k s. (
    record s { lists = insert k (but_last (lookup_or k [] s.lists)) s.lists },
    last_of (lookup_or k [] s.lists),
  );
  zadd = λ k x t s. record s { sets = insert k (insert x t (lookup_or k [] s.sets)) s.sets };
  zrem = λ k x s. record s { sets = insert k (erase x (lookup_or k [] s.sets)) s.sets };
  zrangebyscore = λ k t s. in_range t (lookup_or k [] s.sets);
  keys_pending = λ s. names s.lists;
  keys_in_flight = flights;
  llen = λ k s. length (lookup_or k [] s.lists);
  zcard = λ k s. length (names (lookup_or k [] s.sets));
  list = λ k s. lookup_or k [] s.lists;
  scores = λ k s. lookup_or k [] s.sets;
  hgetall-hset =
      λ j k fields s. lookup_or-insert k j [] (update fields (lookup_or k [] s.hashes)) s.hashes;
  hgetall-expire = λ j k t s. refl;
  hgetall-lpush = λ j k x s. refl;
  hgetall-rpop = λ j k s. refl;
  hgetall-zadd = λ j k x t s. refl;
  hgetall-zrem = λ j k x s. refl;
  list-hset = λ j k fields s. refl;
  list-expire = λ j k t s. refl;
  list-lpush = λ j k x s. lookup_or-insert k j [] (x ∷ lookup_or k [] s.lists) s.lists;
  list-rpop = λ j k s. lookup_or-insert k j [] (but_last (lookup_or k [] s.lists)) s.lists;
  list-zadd = λ j k x t s. refl;
  list-zrem = λ j k x s. refl;
  rpop_last = λ k s. refl;
  scores-hset = λ j k fields s. refl;
  scores-expire = λ j k t s. refl;
  scores-lpush = λ j k x s. refl;
  scores-rpop = λ j k s. refl;
  scores-zadd = λ j k x i t s. zadd_scores j k x i t s.sets;
  scores-zrem = λ j k x i s. zrem_scores j k x i s.sets;
  zrangebyscore_lem = λ k i t s. in_range_lem t i (lookup_or k [] s.sets);
  keys_in_flight_lem = flights_lem;
  keys_match = flights_match;
}
