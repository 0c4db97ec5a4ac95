-- ===== src/Queue/Handles.antt =====
-- A handle stands for one event for good: whatever calls follow, an entry that is lent under a handle
-- has the event that it had when the handle was drawn.
use feathr_events.Prelude.{
  ℕ, ◌≤◌, ◌<◌, List, [], ◌∷◌, none, some, ◌≡◌, refl, arith, ◌⊎◌, inl, inr, Bool-cases, Option-cases,
  ok, err, Result, ◌>>=◌, nat_beq, nat_eq, if◌then◌else◌, sym, subst, ◌∙◌, ap, leb,
}
use mathlib.Core.Option.{some_inj}
use feathr_events.Dict
use feathr_events.Dict.Laws.{get-set, get-delete}
use feathr_events.Queue.{
  Queue, QueueError, Config, Entry, stamp, lend, bury, lapse, sweep_one, sweep_each, sweep,
  expired_handles,
}

module _ (uuid : ℕ → ℕ) where
  -- A handle drawn before a number.
  abbrev pub IsOld : ℕ → ℕ → Type 0
  IsOld drawn h = (n : ℕ) × (n < drawn) × (h ≡ uuid n)

  -- The entry `e` comes from one of `q` with its handle and event, or got its handle since.
  abbrev pub IsHeir : Queue → Queue → ℕ → Entry → Type 0
  IsHeir q p h e =
      ((id : ℕ) × (e' : Entry) × (Dict.get id q.entries ≡ some e')
        × (e'.handle ≡ some h)
        × (e'.event ≡ e.event))
      ⊎ ((n : ℕ) × (q.drawn ≤ n) × (n < p.drawn) × (h ≡ uuid n))

  pub record Inherits (q p : Queue) : Type 0 where
    pub later : q.drawn ≤ p.drawn
    pub heir :
        (id h : ℕ) (e : Entry) → Dict.get id p.entries ≡ some e → e.handle ≡ some h → IsHeir q p h e

  pub Inherits-refl : (q : Queue) → Inherits q q
  Inherits-refl q = record {
    later = omega arith;
    heir = λ id h e found lent. inl (id, e, found, lent, refl);
  }

  -- A change of the other structures.
  pub same-Inherits : (q p : Queue) → p.entries ≡ q.entries → q.drawn ≡ p.drawn → Inherits q p
  same-Inherits q p entries drawn = record {
    later = omega (arith, drawn);
    heir = λ id h e found lent. inl (id, e, sym (ap (Dict.get id) entries) ∙ found, lent, refl);
  }

  pub Inherits-trans : (q p r : Queue) → Inherits q p → Inherits p r → Inherits q r
  Inherits-trans q p r a b = record {
    later = omega (arith, a.later, b.later);
    heir = λ id h e found lent. elim (b.heir id h e found lent) [
      | inr (n, low, high, new) ↦ inr (n, omega (arith, low, a.later), high, new)
      | inl (id', e', found', lent', same) ↦ elim (a.heir id' h e' found' lent') [
        | inr (n, low, high, new) ↦ inr (n, low, omega (arith, high, b.later), new)
        | inl (id'', e'', found'', lent'', same') ↦ inl (id'', e'', found'', lent'', same' ∙ same)
      ]
    ];
  }

  -- The entries stay, but for some that are taken out.
  pub deleted-Inherits :
      (m : ℕ) (q p : Queue) → p.entries ≡ Dict.delete m q.entries → p.drawn ≡ q.drawn → Inherits q p
  deleted-Inherits m q p entries drawn = record {
    later = omega (arith, drawn);
    heir = λ id h e found lent. inl (
      id,
      e,
      ground (arith, get-delete m id q.entries, ap (Dict.get id) entries, found),
      lent,
      refl,
    );
  }

  -- The entries stay, but for one that is set to an heir.
  pub set-Inherits :
      (m : ℕ) (x : Entry) (q p : Queue)
      → p.entries ≡ Dict.set m x q.entries
      → q.drawn ≤ p.drawn
      → ((h : ℕ) → x.handle ≡ some h → IsHeir q p h x)
      → Inherits q p
  set-Inherits m x q p entries drawn same = record {
    later = drawn;
    heir = λ id h e found lent.
        let at : (if nat_beq m id then some x else Dict.get id q.entries) ≡ some e =
          sym (get-set m id x q.entries) ∙ sym (ap (Dict.get id) entries) ∙ found in
        elim (Bool-cases (nat_beq m id)) [
          | inl here ↦
              let it : x ≡ e =
                some_inj.0
                  (ap (λ b. if b then some x else Dict.get id q.entries) (sym here) ∙ at) in
              subst (IsHeir q p h) it (same h (ap (λ y. y.handle) it ∙ lent))
          | inr there ↦ inl (id, e, ground (arith, there, at), lent, refl)
        ];
  }

  lapse-Inherits : (m : ℕ) (e : Entry) (q : Queue) → Inherits q (lapse m e q)
  unfolding lapse
  lapse-Inherits m e q =
      set-Inherits m (record e { handle = none }) q (lapse m e q) refl (omega arith)
        (λ h none_there. ground (arith, none_there))

  pub stamp-Inherits :
      (m deadline : ℕ) (e : Entry) (q : Queue)
      → Dict.get m q.entries ≡ some e
      → Inherits q (stamp m deadline e q)
  unfolding stamp
  stamp-Inherits m deadline e q found =
      set-Inherits m (record e { deadline = deadline }) q (stamp m deadline e q) refl (omega arith)
        (λ h lent. inl (m, e, found, lent, refl))

  pub lend-Inherits :
      (base now m : ℕ) (e : Entry) (q : Queue) → Inherits q (lend uuid base now m e q)
  unfolding lend
  lend-Inherits base now m e q =
      set-Inherits m _ q (lend uuid base now m e q) refl (omega arith)
        (λ h lent. inr (q.drawn, omega arith, omega arith, sym (some_inj.0 lent)))

  -- What a call leaves, where it does not raise.
  abbrev pub Kept : Queue → Result QueueError Queue → Type 0
  Kept q (ok p) = Inherits q p
  Kept q (err e) = Unit

  sweep_one-Kept : (c : Config) (h : ℕ) (q : Queue) → Kept q (sweep_one c h q)
  unfolding sweep_one bury
  sweep_one-Kept c h q = elim (Option-cases (Dict.get h q.inflight)) [
    | inl gone ↦ rw gone tt
    | inr (m, lent) ↦ elim (Option-cases (Dict.get m q.entries)) [
      | inl missing ↦ rw (lent, missing) tt
      | inr (e, found) ↦ elim (Bool-cases (leb c.max_receives e.receive_count)) [
        | inl over ↦ rw (lent, found, over) (deleted-Inherits m q _ refl refl)
        | inr left ↦
            let p = record q { inflight = Dict.delete h q.inflight } in
            rw (lent, found, left)
              (Inherits-trans q p _ (same-Inherits q p refl refl) (lapse-Inherits m e p))
      ]
    ]
  ]

  pub then-Kept :
      (q : Queue) (r : Result QueueError Queue) (f : Queue → Result QueueError Queue)
      → Kept q r
      → ((p : Queue) → Inherits q p → Kept q (f p))
      → Kept q (r >>= f)
  then-Kept q (ok p) f k next = next p k
  then-Kept q (err e) f k next = tt

  pub onward-Kept : (q p : Queue) (r : Result QueueError Queue) → Inherits q p → Kept p r → Kept q r
  onward-Kept q p (ok r) a b = Inherits-trans q p r a b
  onward-Kept q p (err e) a b = tt

  sweep_each-Kept : (c : Config) (hs : List ℕ) (q : Queue) → Kept q (sweep_each c hs q)
  unfolding sweep_each
  sweep_each-Kept c [] q = Inherits-refl q
  sweep_each-Kept c (h ∷ hs) q =
      then-Kept q (sweep_one c h q) (sweep_each c hs) (sweep_one-Kept c h q)
        (λ p a. onward-Kept q p (sweep_each c hs p) a (sweep_each-Kept c hs p))

  pub sweep-Kept : (c : Config) (now : ℕ) (q : Queue) → Kept q (sweep c now q)
  unfolding sweep
  sweep-Kept c now q = each (expired_handles now q.entries q.inflight)
    where
      each : (r : Result QueueError (List ℕ)) → Kept q (r >>= (λ hs. sweep_each c hs q))
      each (ok hs) = sweep_each-Kept c hs q
      each (err e) = tt
