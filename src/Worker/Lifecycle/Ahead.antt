-- ===== src/Worker/Lifecycle/Ahead.antt =====
-- How many segments a consumer of a stopping worker has ahead of it.
use feathr_events.Prelude.{
  ℕ, ◌+◌, ◌-◌, ◌*◌, ◌≤◌, ◌<◌, List, [], ◌∷◌, Bool, arith, inl, inr, Bool-cases, length, nat_beq,
  nat_beq_iff, if◌then◌else◌, ok, err, Result, nat_eq,
}
use feathr_events.Queue.{
  Queue, QueueError, Message, receipt_handle_is_invalid, queue_full, key_error, change_visibility,
}
use feathr_events.Faults.{Faulted}
use feathr_events.Stores.{Documents, Reply, upsert, index}
use feathr_events.Worker.{
  Settings, World, Pc, After, idle, handling, storing, indexing, ended, go_on, System, claim,
  claimed, put_back, fail_delivery, store_write, index_write, deleted,
}
use feathr_events.Worker.Lifecycle.{Step, goes_on, arrives, step, drain, looked}

-- How many segments a consumer has before it at most when the worker stops.
abbrev pub ahead : Pc → ℕ
ahead ended = 0
ahead idle = 1
ahead (handling ms) = 3 * length ms + 2
ahead (storing m rest) = 3 * length rest + 4
ahead (indexing m rest) = 3 * length rest + 3

module _ (mongo elastic : Documents) (c : Settings) where
  abbrev ahead_of : After mongo elastic c → ℕ
  ahead_of (w, p) = ahead p

  claimed-ahead :
      (w : World mongo elastic) (m : Message) (rest : List Message) (r : Result QueueError Queue)
      → ahead_of (claimed mongo elastic c w m rest r) < 3 * length (m ∷ rest) + 2
  claimed-ahead w m rest (ok q) = omega arith
  claimed-ahead w m rest (err receipt_handle_is_invalid) = omega arith
  claimed-ahead w m rest (err queue_full) = omega arith
  claimed-ahead w m rest (err key_error) = omega arith

  put_back-ahead :
      (w : World mongo elastic) (rest : List Message) (r : Result QueueError Queue)
      → ahead_of (put_back mongo elastic c w rest r) < 3 * length rest + 3
  put_back-ahead w rest (ok q) = omega arith
  put_back-ahead w rest (err receipt_handle_is_invalid) = omega arith
  put_back-ahead w rest (err queue_full) = omega arith
  put_back-ahead w rest (err key_error) = omega arith

  deleted-ahead :
      (w : World mongo elastic) (m : Message) (rest : List Message) (r : Result QueueError Queue)
      → ahead_of (deleted mongo elastic c w m rest r) < 3 * length rest + 3
  deleted-ahead w m rest (ok q) = omega arith
  deleted-ahead w m rest (err receipt_handle_is_invalid) = omega arith
  deleted-ahead w m rest (err queue_full) = omega arith
  deleted-ahead w m rest (err key_error) = omega arith

  fail_delivery-ahead :
      (t₁ t₂ t₃ : ℕ) (m : Message) (rest : List Message) (w : World mongo elastic)
      → ahead_of (fail_delivery mongo elastic c t₁ t₂ t₃ m rest w) < 3 * length rest + 3
  unfolding fail_delivery
  fail_delivery-ahead t₁ t₂ t₃ m rest w = put_back-ahead _ rest _

  store_write-ahead :
      (t₁ t₂ t₃ : ℕ) (faulted : Faulted) (reply : Reply) (m : Message) (rest : List Message)
      (w : World mongo elastic)
      → ahead_of (store_write mongo elastic c t₁ t₂ t₃ faulted reply m rest w) < 3 * length rest + 4
  unfolding store_write
  store_write-ahead t₁ t₂ t₃ faulted reply m rest w =
      elim (Bool-cases (upsert mongo c.demo_mode faulted reply m.event w.store).1) [
        | inl raised ↦ rw raised (omega (arith, fail_delivery-ahead t₁ t₂ t₃ m rest _))
        | inr fine ↦ rw fine (omega arith)
      ]

  index_write-ahead :
      (t₁ t₂ t₃ : ℕ) (faulted : Faulted) (prepared : Bool) (reply : Reply) (m : Message)
      (rest : List Message) (w : World mongo elastic)
      → ahead_of (index_write mongo elastic c t₁ t₂ t₃ faulted prepared reply m rest w)
        < 3 * length rest + 3
  unfolding index_write
  index_write-ahead t₁ t₂ t₃ faulted prepared reply m rest w =
      elim (Bool-cases
        (index elastic c.demo_mode faulted prepared reply w.ready m.event w.search).2) [
          | inl raised ↦ rw raised (fail_delivery-ahead t₁ t₂ t₃ m rest _)
          | inr fine ↦ rw fine (deleted-ahead _ m rest _)
        ]

  abbrev next :
      (t₁ t₂ t₃ : ℕ)
      → Faulted
      → (prepared : Bool) → Reply
      → World mongo elastic
      → Pc
      → After mongo elastic c
  next t₁ t₂ t₃ faulted prepared reply w p =
      if looked mongo elastic c p
      then (w, ended)
      else go_on mongo elastic c t₁ t₂ t₃ faulted prepared reply w p

  -- Each segment brings a consumer nearer to its end.
  next-ahead :
      (t₁ t₂ t₃ : ℕ) (faulted : Faulted) (prepared : Bool) (reply : Reply) (w : World mongo elastic)
      (p : Pc)
      → ahead_of (next t₁ t₂ t₃ faulted prepared reply w p) ≤ ahead p - 1
  unfolding go_on claim
  next-ahead t₁ t₂ t₃ faulted prepared reply w idle = omega arith
  next-ahead t₁ t₂ t₃ faulted prepared reply w ended = omega arith
  next-ahead t₁ t₂ t₃ faulted prepared reply w (handling []) = omega arith
  next-ahead t₁ t₂ t₃ faulted prepared reply w (handling (m ∷ rest)) =
      omega
        (arith, claimed-ahead w m rest (change_visibility t₁ m.receipt_handle c.visibility w.queue))
  next-ahead t₁ t₂ t₃ faulted prepared reply w (storing m rest) =
      omega (arith, store_write-ahead t₁ t₂ t₃ faulted reply m rest w)
  next-ahead t₁ t₂ t₃ faulted prepared reply w (indexing m rest) =
      omega (arith, index_write-ahead t₁ t₂ t₃ faulted prepared reply m rest w)

  -- How often a consumer goes on.
  abbrev pub moves : ℕ → List (Step mongo elastic c) → ℕ
  moves i [] = 0
  moves i (goes_on j t₁ t₂ t₃ faulted prepared reply ∷ xs) =
      (if nat_beq j i then 1 else 0) + moves i xs
  moves i (arrives e ∷ xs) = moves i xs

  abbrev moved : ℕ → Step mongo elastic c → ℕ
  moved i x = moves i (x ∷ [])

  step-ahead :
      (i : ℕ) (x : Step mongo elastic c) (s : System mongo elastic c)
      → ahead ((step mongo elastic c x s).pc i) ≤ ahead (s.pc i) - moved i x
  unfolding step
  step-ahead i (arrives e) s = omega arith
  step-ahead i (goes_on j t₁ t₂ t₃ faulted prepared reply) s = elim (Bool-cases (nat_beq j i)) [
    | inl same ↦
        rw (same, ← (nat_beq_iff j i).0 same)
          (omega (arith, next-ahead t₁ t₂ t₃ faulted prepared reply s.world (s.pc j)))
    | inr other ↦ rw other (omega arith)
  ]

  pub drain-ahead :
      (i : ℕ) (xs : List (Step mongo elastic c)) (s : System mongo elastic c)
      → ahead ((drain mongo elastic c xs s).pc i) ≤ ahead (s.pc i) - moves i xs
  unfolding drain
  drain-ahead i [] s = omega arith
  drain-ahead i (arrives e ∷ xs) s =
      omega
        (arith, drain-ahead i xs (step mongo elastic c (arrives e) s), step-ahead i (arrives e) s)
  drain-ahead i (goes_on j t₁ t₂ t₃ faulted prepared reply ∷ xs) s =
      let x = goes_on j t₁ t₂ t₃ faulted prepared reply in
      omega (arith, drain-ahead i xs (step mongo elastic c x s), step-ahead i x s)
