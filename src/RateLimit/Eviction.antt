-- ===== src/RateLimit/Eviction.antt =====
-- The table of buckets stays bounded, and the client that is asking is not evicted.
use feathr_events.Prelude.{
  ℕ, ◌+◌, ◌*◌, ◌≤◌, ◌<◌, ◌≡◌, List, [], ◌∷◌, ◌++◌, true, false, leb, if◌then◌else◌, arith, refl,
  Bool-cases, none, some, Option-cases, inl, inr, length, length-append, ◌==◌, ◌∙◌,
}
use feathr_events.Dict
use feathr_events.Dict.{IsDict}
use feathr_events.Dict.Laws.{
  get-set, get-delete, get-concat, length-set_new, length-set_old, length-delete, set-IsDict,
}
use feathr_events.RateLimit.{
  Key, Kind, key_eq, key_beq_iff, Bucket, Buckets, Limits, limit, max_clients, is_full, drop_full,
  drop_oldest, evict_if_needed, bucket_for, check, take,
}

drop_oldest-bounded : (d : Buckets) → length (drop_oldest d) ≤ max_clients
unfolding drop_oldest
drop_oldest-bounded [] = omega arith
drop_oldest-bounded (item ∷ d) = elim (Bool-cases (leb (length (item ∷ d)) max_clients)) [
  | inl small ↦ rw small (ground arith)
  | inr large ↦ rw large (drop_oldest-bounded d)
]

drop_full-bounded :
    (l : Limits) (items : List (Key × Bucket)) (d : Buckets)
    → (drop_full l items d).1 ≡ true
    → length (drop_full l items d).0 ≤ max_clients
unfolding drop_full
drop_full-bounded l [] d = λ h. ground arith
drop_full-bounded l ((key, b) ∷ items) d = elim (Bool-cases (is_full l key b)) [
  | inl full ↦ rw full (elim (Bool-cases (leb (length (Dict.delete key d)) max_clients)) [
    | inl small ↦ rw small (λ h. ground arith)
    | inr large ↦ rw large (drop_full-bounded l items (Dict.delete key d))
  ])
  | inr busy ↦ rw busy (elim (Bool-cases (leb (length d) max_clients)) [
    | inl small ↦ rw small (λ h. ground arith)
    | inr large ↦ rw large (drop_full-bounded l items d)
  ])
]

-- The table is never larger than its bound after an eviction.
evict_if_needed-bounded : (l : Limits) (d : Buckets) → length (evict_if_needed l d) ≤ max_clients
unfolding evict_if_needed
evict_if_needed-bounded l d = elim (Bool-cases (leb (length d) max_clients)) [
  | inl small ↦ rw small (ground arith)
  | inr large ↦ rw large (elim (Bool-cases (drop_full l d d).1) [
    | inl done ↦ rw done (drop_full-bounded l d d done)
    | inr more ↦ rw more (drop_oldest-bounded (drop_full l d d).0)
  ])
]

-- The entry of `k` is the last one, and the only one of `k`.
abbrev IsLast : Key → Bucket → Buckets → Type 0
IsLast k b d = (xs : Buckets) × (d ≡ xs ++ (k, b) ∷ []) × (Dict.get k xs ≡ none)

delete-concat :
    (j k : Key) (b : Bucket) (xs : Buckets)
    → (j == k) ≡ false
    → Dict.delete j (xs ++ (k, b) ∷ []) ≡ Dict.delete j xs ++ (k, b) ∷ []
unfolding Dict.delete
delete-concat j k b [] h = ground (arith, key_beq_iff j k, key_beq_iff k j)
delete-concat j k b ((i, w) ∷ xs) h = ground (arith, delete-concat j k b xs)

drop_oldest-IsLast :
    (k : Key) (b : Bucket) (xs : Buckets)
    → Dict.get k xs ≡ none
    → IsLast k b (drop_oldest (xs ++ (k, b) ∷ []))
unfolding drop_oldest Dict.get
drop_oldest-IsLast k b [] h = ([], refl, refl)
drop_oldest-IsLast k b ((i, w) ∷ xs) h =
    elim (Bool-cases (leb (length ((i, w) ∷ (xs ++ (k, b) ∷ []))) max_clients)) [
      | inl small ↦ ((i, w) ∷ xs, rw small refl, h)
      | inr large ↦ let (ys, e, g) = drop_oldest-IsLast k b xs (ground arith) in (ys, rw large e, g)
    ]

-- Among the items the key `k` stands only with a bucket that is not full.
abbrev IsSpared : Limits → Key → List (Key × Bucket) → Type 0
IsSpared l k [] = Unit
IsSpared l k ((j, w) ∷ items) = ((j == k) ≡ true → is_full l j w ≡ false) × IsSpared l k items

drop_full-IsLast :
    (l : Limits) (k : Key) (b : Bucket) (items : List (Key × Bucket)) (xs : Buckets)
    → IsSpared l k items
    → Dict.get k xs ≡ none
    → IsLast k b (drop_full l items (xs ++ (k, b) ∷ [])).0
unfolding drop_full
drop_full-IsLast l k b [] xs s h = (xs, refl, h)
drop_full-IsLast l k b ((j, w) ∷ items) xs s h = elim (Bool-cases (is_full l j w)) [
  | inl full ↦
      let other : (j == k) ≡ false = ground (arith, s.0) in
      rw (full, delete-concat j k b xs other)
        (stop (Dict.delete j xs) (ground (arith, get-delete j k xs))
          (drop_full-IsLast l k b items (Dict.delete j xs) s.1 (ground (arith, get-delete j k xs))))
  | inr busy ↦ rw busy (stop xs h (drop_full-IsLast l k b items xs s.1 h))
]
  where
    stop :
        (ys : Buckets)
        → Dict.get k ys ≡ none
        → IsLast k b (drop_full l items (ys ++ (k, b) ∷ [])).0
        → IsLast k b
            (if leb (length (ys ++ (k, b) ∷ [])) max_clients
              then (ys ++ (k, b) ∷ [], true)
              else drop_full l items (ys ++ (k, b) ∷ [])).0
    stop ys none' rest = elim (Bool-cases (leb (length (ys ++ (k, b) ∷ [])) max_clients)) [
      | inl small ↦ rw small (ys, refl, none')
      | inr large ↦ rw large rest
    ]

spared :
    (l : Limits) (k : Key) (b : Bucket) (xs : Buckets)
    → is_full l k b ≡ false
    → Dict.get k xs ≡ none
    → IsSpared l k (xs ++ (k, b) ∷ [])
unfolding Dict.get
spared l k b [] busy h = (λ _. busy, tt)
spared l k b ((j, w) ∷ xs) busy h = (λ same. ground arith, spared l k b xs busy (ground arith))

evict_if_needed-IsLast :
    (l : Limits) (k : Key) (b : Bucket) (xs : Buckets)
    → is_full l k b ≡ false
    → Dict.get k xs ≡ none
    → IsLast k b (evict_if_needed l (xs ++ (k, b) ∷ []))
unfolding evict_if_needed
evict_if_needed-IsLast l k b xs busy h =
    elim (Bool-cases (leb (length (xs ++ (k, b) ∷ [])) max_clients)) [
      | inl small ↦ rw small (xs, refl, h)
      | inr large ↦
          let d : Buckets = xs ++ (k, b) ∷ [] in
          let (ys, e, g) = drop_full-IsLast l k b d xs (spared l k b xs busy h) h in
          rw large (elim (Bool-cases (drop_full l d d).1) [
            | inl done ↦ rw done (ys, e, g)
            | inr more ↦ rw (more, e) (drop_oldest-IsLast k b ys g)
          ])
    ]

-- The bucket of the client that asks, after it asked.
abbrev pub asked : Limits → (now client : ℕ) → Kind → Buckets → Bucket
asked l now client kind d = (take (limit l kind) l.window now (bucket_for l now (client, kind) d)).0

asked_busy :
    (l : Limits) (now client : ℕ) (kind : Kind) (d : Buckets)
    → 0 < l.window
    → 0 < limit l kind
    → is_full l (client, kind) (asked l now client kind d) ≡ false
unfolding take is_full
asked_busy l now client kind d w c =
    let big : l.window ≤ limit l kind * l.window = grind arith in ground arith

-- With limits above 0, after any request the table holds at most `max_clients` buckets, and the
-- bucket of the client that asked is among them, less the token it spent: the next request of that
-- client is counted against it.
pub check_remembers :
    (l : Limits) (now client : ℕ) (kind : Kind) (d : Buckets)
    → 0 < l.window
    → 0 < limit l kind
    → (length (check l now client kind d).0 ≤ max_clients)
      × (Dict.get (client, kind) (check l now client kind d).0 ≡ some (asked l now client kind d))
unfolding check Dict.move_to_end
check_remembers l now client kind d w c =
    let k : Key = (client, kind) in
    let b = asked l now client kind d in
    let xs : Buckets = Dict.delete k (Dict.set k b d) in
    let gone : Dict.get k xs ≡ none =
      ground (arith, get-delete k k (Dict.set k b d), key_beq_iff k k) in
    let (ys, e, g) = evict_if_needed-IsLast l k b xs (asked_busy l now client kind d w c) gone in
    (
      evict_if_needed-bounded l (xs ++ (k, b) ∷ []),
      rw e (get-concat k k b ys g ∙ ground (arith, key_beq_iff k k)),
    )

module _ (k : Key) (b : Bucket) (d : Buckets) where
  -- The table after `self._buckets[key] = bucket` and `move_to_end(key)`.
  abbrev moved : Buckets
  moved = Dict.delete k (Dict.set k b d) ++ (k, b) ∷ []

  get-moved : (j : Key) → Dict.get j moved ≡ (if k == j then some b else Dict.get j d)
  get-moved j = ground (
    arith,
    get-concat k j b (Dict.delete k (Dict.set k b d)),
    get-delete k k (Dict.set k b d),
    get-delete k j (Dict.set k b d),
    get-set k j b d,
    key_beq_iff k k,
  )

  length-moved : IsDict d → length moved ≤ length d + 1
  length-moved u =
      let size = length-append (Dict.delete k (Dict.set k b d)) ((k, b) ∷ []) in
      let less =
        length-delete k b (Dict.set k b d) (set-IsDict k b d u)
          (ground (arith, get-set k k b d, key_beq_iff k k)) in
      elim (Option-cases (Dict.get k d)) [
        | inl absent ↦ omega (arith, size, less, length-set_new k b d absent)
        | inr (w, there) ↦ omega (arith, size, less, length-set_old k b w d there)
      ]

evict_if_needed_small :
    (l : Limits) (d : Buckets) → length d ≤ max_clients → evict_if_needed l d ≡ d
unfolding evict_if_needed
evict_if_needed_small l d h = ground arith

-- While there is room in the table, a request touches no bucket but its own: other clients, and the
-- other kind of the same client, keep their tokens.
pub check_isolated :
    (l : Limits) (now client : ℕ) (kind : Kind) (d : Buckets) (j : Key)
    → IsDict d
    → length d < max_clients
    → Dict.get j (check l now client kind d).0
      ≡ (if (client, kind) == j then some (asked l now client kind d) else Dict.get j d)
unfolding check Dict.move_to_end
check_isolated l now client kind d j u room =
    let b = asked l now client kind d in
    rw
      (evict_if_needed_small l (moved (client, kind) b d)
        (omega (arith, length-moved (client, kind) b d u)))
      (get-moved (client, kind) b d j)
