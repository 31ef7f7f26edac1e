-- ===== src/Store/Ordered/Sorting.antt =====
-- The order of what All of the ordered store returns.
use paho_mqtt_golang.Base.{
  ℕ, ◌≡◌, ◌≤◌, ◌↔◌, ◌⊎◌, refl, ap, inl, inr, List, [], ◌∷◌, Bytes, true, Bool-cases, some, leb,
  Listed, str_eq, str_eq_iff, arith,
}
use paho_mqtt_golang.Base.Assoc.{lookup, bytes_eq, Distinct}
use paho_mqtt_golang.Store.Memory.{keys}
use paho_mqtt_golang.Store.Ordered.{
  OrderedMemoryStore, StoredMessage, times, insert_by_time, sort_by_time, second, all,
}

Listed-insert_by_time :
    (x : ℕ × Bytes) (xs : List (ℕ × Bytes)) (k : Bytes)
    → Listed k (second (insert_by_time x xs)) ↔ ((x.1 ≡ k) ⊎ Listed k (second xs))
unfolding insert_by_time
Listed-insert_by_time x [] k = ground arith
Listed-insert_by_time x (y ∷ ys) k = ground (arith, Listed-insert_by_time x ys k)

pub Listed-sort_by_time :
    (xs : List (ℕ × Bytes)) (k : Bytes) → Listed k (second (sort_by_time xs)) ↔ Listed k (second xs)
unfolding sort_by_time
Listed-sort_by_time [] k = ground arith
Listed-sort_by_time (x ∷ xs) k =
    ground (arith, Listed-sort_by_time xs k, Listed-insert_by_time x (sort_by_time xs) k)

second-times : (m : List (Bytes × StoredMessage)) → second (times m) ≡ keys m
second-times [] = refl
second-times ((k, v) ∷ m) = ap (λ ks. k ∷ ks) (second-times m)

pub Listed-all :
    (st : OrderedMemoryStore) (k : Bytes)
    → st.opened ≡ true
    → Listed k (all st) ↔ Listed k (keys st.messages)
unfolding all
Listed-all st k o =
    rw⁻¹ (second-times st.messages) (rw o (Listed-sort_by_time (times st.messages) k))

-- Times that do not fall.
abbrev pub IsSorted : List (ℕ × Bytes) → Type 0
IsSorted [] = Unit
IsSorted (x ∷ []) = Unit
IsSorted (x ∷ y ∷ xs) = (x.0 ≤ y.0) × IsSorted (y ∷ xs)

-- Behind a smaller or equal head, an insert keeps the order.
insert_by_time-IsSorted_behind :
    (h x : ℕ × Bytes) (xs : List (ℕ × Bytes))
    → h.0 ≤ x.0
    → IsSorted (h ∷ xs)
    → IsSorted (h ∷ insert_by_time x xs)
unfolding insert_by_time
insert_by_time-IsSorted_behind h x [] le s = (le, tt)
insert_by_time-IsSorted_behind h x (y ∷ ys) le s = elim (Bool-cases (leb x.0 y.0)) [
  | inl before ↦ rw before (le, (ground arith, s.1))
  | inr behind ↦ rw behind (s.0, insert_by_time-IsSorted_behind y x ys (ground arith) s.1)
]

insert_by_time-IsSorted :
    (x : ℕ × Bytes) (xs : List (ℕ × Bytes)) → IsSorted xs → IsSorted (insert_by_time x xs)
unfolding insert_by_time
insert_by_time-IsSorted x [] s = tt
insert_by_time-IsSorted x (y ∷ ys) s = elim (Bool-cases (leb x.0 y.0)) [
  | inl before ↦ rw before (ground arith, s)
  | inr behind ↦ rw behind (insert_by_time-IsSorted_behind y x ys (ground arith) s)
]

pub sort_by_time-IsSorted : (xs : List (ℕ × Bytes)) → IsSorted (sort_by_time xs)
unfolding sort_by_time
sort_by_time-IsSorted [] = tt
sort_by_time-IsSorted (x ∷ xs) =
    insert_by_time-IsSorted x (sort_by_time xs) (sort_by_time-IsSorted xs)

pair-insert_by_time :
    (x : ℕ × Bytes) (xs : List (ℕ × Bytes)) (p : ℕ × Bytes)
    → Listed p (insert_by_time x xs) ↔ ((x ≡ p) ⊎ Listed p xs)
unfolding insert_by_time
pair-insert_by_time x [] p = ground arith
pair-insert_by_time x (y ∷ ys) p = ground (arith, pair-insert_by_time x ys p)

-- Sorting keeps every pair of a time and a key.
pair-sort_by_time :
    (xs : List (ℕ × Bytes)) (p : ℕ × Bytes) → Listed p (sort_by_time xs) ↔ Listed p xs
unfolding sort_by_time
pair-sort_by_time [] p = ground arith
pair-sort_by_time (x ∷ xs) p =
    ground (arith, pair-sort_by_time xs p, pair-insert_by_time x (sort_by_time xs) p)

Listed-times :
    (m : List (Bytes × StoredMessage)) (t : ℕ) (k : Bytes)
    → Distinct m
    → Listed (t, k) (times m)
    → (v : StoredMessage) × (lookup k m ≡ some v) × (v.ts ≡ t)
unfolding lookup
Listed-times [] t k d l = absurd l
Listed-times ((j, v) ∷ m) t k d (inl e) = (v, ground (arith, str_eq_iff j k), ground arith)
Listed-times ((j, v) ∷ m) t k d (inr l) =
    let (w, at, time) = Listed-times m t k d.1 l in
    (w, ground (arith, str_eq_iff j k, d.0, at), time)

times-Listed :
    (m : List (Bytes × StoredMessage)) (t : ℕ) (k : Bytes) (v : StoredMessage)
    → lookup k m ≡ some v
    → v.ts ≡ t
    → Listed (t, k) (times m)
unfolding lookup
times-Listed [] t k v at time = cc
times-Listed ((j, w) ∷ m) t k v at time = elim (Bool-cases (str_eq j k)) [
  | inl same ↦ inl (ground (arith, str_eq_iff j k))
  | inr other ↦ inr (times-Listed m t k v (ground arith) time)
]

-- All of an open store, whose map has no key twice, lists the keys with the times of their puts,
-- every pair of the map and no other, and the times do not fall from one to the next.
pub all-IsSorted :
    (st : OrderedMemoryStore) (t : ℕ) (k : Bytes)
    → st.opened ≡ true
    → Distinct st.messages
    → (ps : List (ℕ × Bytes)) × (all st ≡ second ps)
      × IsSorted ps
      × (Listed (t, k) ps ↔ ((v : StoredMessage) × (lookup k st.messages ≡ some v) × (v.ts ≡ t)))
unfolding all
all-IsSorted st t k o d = (
  sort_by_time (times st.messages),
  rw o refl,
  sort_by_time-IsSorted (times st.messages),
  (
    λ l. Listed-times st.messages t k d ((pair-sort_by_time (times st.messages) (t, k)).0 l),
    λ (v, at, time).
        (pair-sort_by_time (times st.messages) (t, k)).1 (times-Listed st.messages t k v at time),
  ),
)
