-- ===== src/Queue/Order.antt =====
-- The order of `receive`: the longest visible message goes first.
use feathr_events.Prelude.{
  ℕ, zero, suc, ◌+◌, ◌≡◌, ◌≢◌, refl, Option, none, some, true, arith, ◌∷◌, [], ◌++◌, List, map,
  take, drop, contains, contains-take, IsNodup, ok, Option-cases, inl, inr, nat_eq, nat_beq_iff, ap,
  ◌∙◌, subst, sym, leb,
}
use feathr_events.Models.{Event}
use feathr_events.Dict
use feathr_events.Dict.Laws.{get-set}
use feathr_events.Queue.{Queue, Config, Entry, Message, receive, lend, hand_out, or_default}
use feathr_events.Queue.Invariant.{Inv, waits}
use feathr_events.Queue.Loans.{receive_runs}
use feathr_events.Queue.Sweeping.{sweep-Inv, after_loan}

-- What a delivery of a stored message hands over: the event, and which delivery it is.
abbrev pub delivery : Option Entry → List (Event × ℕ)
delivery none = []
delivery (some e) = (e.event, e.receive_count + 1) ∷ []

abbrev pub deliveries : List (ℕ × Entry) → List ℕ → List (Event × ℕ)
deliveries d [] = []
deliveries d (m ∷ ms) = delivery (Dict.get m d) ++ deliveries d ms

abbrev pub handed : List Message → List (Event × ℕ)
handed = map λ msg. (msg.event, msg.receive_count)

deliveries_agree :
    (d d' : List (ℕ × Entry)) (ms : List ℕ)
    → ((m : ℕ) → contains m ms ≡ true → delivery (Dict.get m d) ≡ delivery (Dict.get m d'))
    → deliveries d ms ≡ deliveries d' ms
deliveries_agree d d' [] same = refl
deliveries_agree d d' (m ∷ ms) same = rw (
  same m (ground (arith, nat_beq_iff m m)),
  deliveries_agree d d' ms (λ j h. same j (ground arith)),
)

module _ (uuid : ℕ → ℕ) where
  hand_out-handed :
      (base now room : ℕ) (visible : List ℕ) (q : Queue)
      → IsNodup visible
      → ((m : ℕ) → contains m visible ≡ true → Dict.get m q.entries ≢ none)
      → (handed (hand_out uuid base now room visible q).1
          ≡ deliveries q.entries (take room visible))
        × ((hand_out uuid base now room visible q).0.visible ≡ drop room visible)
  unfolding hand_out lend
  hand_out-handed base now zero visible q d known = (refl, refl)
  hand_out-handed base now (suc room) [] q d known = (refl, refl)
  hand_out-handed base now (suc room) (m ∷ visible) q d known =
      elim (Option-cases (Dict.get m q.entries)) [
        | inl missing ↦ absurd (known m (ground (arith, nat_beq_iff m m)) missing)
        | inr (e, found) ↦
            let x : Entry = record e {
              receive_count = e.receive_count + 1;
              deadline = now + base;
              handle = some (uuid q.drawn);
            } in
            let (out, left) =
              hand_out-handed base now room visible (lend uuid base now m e q) d.1
                (λ j h. ground (arith, get-set m j x q.entries, known j)) in
            let same =
              deliveries_agree (Dict.set m x q.entries) q.entries (take room visible) (λ j h.
                ground (
                  arith,
                  get-set m j x q.entries,
                  contains-take j room visible h,
                  d.0,
                  nat_beq_iff m j,
                )) in
            rw (found, hand_out) (ap (◌∷◌ (e.event, e.receive_count + 1)) (out ∙ same), left)
      ]

-- The line of the messages that wait once a queue is swept: those that are visible, and behind them
-- those of which the loan has ended and the deliveries are not used up, each once.
abbrev pub IsLine : Config → (swept : ℕ) → Queue → (back : List ℕ) → Type 0
IsLine c swept q back =
    IsNodup (q.visible ++ back)
    × ((m : ℕ)
        → contains m (q.visible ++ back)
          ≡ waits (after_loan c (λ e h. leb e.deadline swept) (Dict.get m q.entries)))

-- On a valid queue `receive` returns. Messages whose loan has ended, and of which the deliveries
-- are not used up, queue up behind those that were visible; the first `max_n` of that line are handed out, in order, each with its event and the
-- number of this delivery, and the rest of the line stays visible.
pub receive_in_order :
    (uuid : ℕ → ℕ) (c : Config) (q : Queue)
    → Inv uuid c q
    → (swept now max_n : ℕ) (timeout : Option ℕ)
    → (back : List ℕ) × (p : Queue) × (out : List Message) × IsLine c swept q back
      × (receive uuid c swept now max_n timeout q ≡ ok (p, out))
      × (handed out ≡ deliveries q.entries (take max_n (q.visible ++ back)))
      × (p.visible ≡ drop max_n (q.visible ++ back))
receive_in_order uuid c q v swept now max_n timeout =
    let (r, run, w, (_, back, line), spec) = sweep-Inv uuid c swept q v in
    let (out, left) =
      hand_out-handed uuid (or_default timeout c.visibility_timeout) now max_n r.visible r
        w.visible_nodup (λ m h. ground (arith, w.waiting m)) in
    let same =
      deliveries_agree r.entries q.entries (take max_n r.visible)
        (λ m h. ground (arith, w.waiting m, contains-take m max_n r.visible h, spec m)) in
    (
      back,
      _,
      _,
      (
        subst IsNodup line w.visible_nodup,
        λ m. ap (contains m) (sym line) ∙ w.waiting m ∙ ap waits (spec m),
      ),
      receive_runs uuid c q v swept now max_n timeout r run,
      out ∙ same ∙ ap (λ l. deliveries q.entries (take max_n l)) line,
      left ∙ ap (drop max_n) line,
    )
