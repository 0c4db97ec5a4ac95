-- ===== src/Worker/Writes.antt =====
-- What a write of a consumer does to the stores, and that what is acknowledged stays stored.
use feathr_events.Prelude.{
  ℕ, ◌≡◌, ap, sym, ◌∙◌, List, [], ◌∷◌, Bool, true, false, arith, All, Bool-cases, inl, inr, nat_beq,
  nat_beq_iff,
}
use feathr_events.Models.{Event}
use feathr_events.Faults.{Faulted}
use feathr_events.Stores.{Documents, Reply, done, refused, unconfirmed, upsert, index}
use feathr_events.Worker.{Settings, World}
use feathr_events.Worker.Safety.{in_store, in_search, Safe}

module _ (mongo elastic : Documents) (c : Settings) where
  -- What a write to the store does, by the documented behaviour of the driver.
  pub upsert_facts :
      (faulted : Faulted) (reply : Reply) (e : Event) (s : mongo.State) (k : ℕ)
      → (in_store mongo elastic k s ≡ true
          → in_store mongo elastic k (upsert mongo c.demo_mode faulted reply e s).0 ≡ true)
        × ((upsert mongo c.demo_mode faulted reply e s).1 ≡ false
            → in_store mongo elastic e.event_id (upsert mongo c.demo_mode faulted reply e s).0
              ≡ true)
  unfolding upsert
  upsert_facts faulted done e s k =
      ground (arith, mongo.find-put e.event_id k e s, mongo.find-put e.event_id e.event_id e s)
  upsert_facts faulted refused e s k =
      ground (arith, mongo.find-put e.event_id k e s, mongo.find-put e.event_id e.event_id e s)
  upsert_facts faulted unconfirmed e s k =
      ground (arith, mongo.find-put e.event_id k e s, mongo.find-put e.event_id e.event_id e s)

  pub index_facts :
      (faulted : Faulted) (prepared : Bool) (reply : Reply) (ready : Bool) (e : Event)
      (s : elastic.State) (k : ℕ)
      → (in_search mongo elastic k s ≡ true
          → in_search mongo elastic k (index elastic c.demo_mode faulted prepared reply ready e s).0
            ≡ true)
        × (in_search mongo elastic k (index elastic c.demo_mode faulted prepared reply ready e s).0
              ≡ true
            → nat_beq e.event_id k ≡ false
            → in_search mongo elastic k s ≡ true)
        × ((index elastic c.demo_mode faulted prepared reply ready e s).2 ≡ false
            → in_search mongo elastic e.event_id
                (index elastic c.demo_mode faulted prepared reply ready e s).0
              ≡ true)
  unfolding index
  index_facts faulted prepared done ready e s k =
      ground (arith, elastic.find-put e.event_id k e s, elastic.find-put e.event_id e.event_id e s)
  index_facts faulted prepared refused ready e s k =
      ground (arith, elastic.find-put e.event_id k e s, elastic.find-put e.event_id e.event_id e s)
  index_facts faulted prepared unconfirmed ready e s k =
      ground (arith, elastic.find-put e.event_id k e s, elastic.find-put e.event_id e.event_id e s)

  acked_mono :
      (s s' : mongo.State) (t t' : elastic.State)
      → ((k : ℕ) → in_store mongo elastic k s ≡ true → in_store mongo elastic k s' ≡ true)
      → ((k : ℕ) → in_search mongo elastic k t ≡ true → in_search mongo elastic k t' ≡ true)
      → (es : List Event)
      → All
          (λ e.
            (in_store mongo elastic e.event_id s ≡ true)
            × (in_search mongo elastic e.event_id t ≡ true))
          es
      → All
          (λ e.
            (in_store mongo elastic e.event_id s' ≡ true)
            × (in_search mongo elastic e.event_id t' ≡ true))
          es
  acked_mono s s' t t' f g [] h = tt
  acked_mono s s' t t' f g (e ∷ es) h =
      ((f e.event_id h.0.0, g e.event_id h.0.1), acked_mono s s' t t' f g es h.1)

  pub stored-Safe :
      (w : World mongo elastic) (s : mongo.State)
      → ((k : ℕ) → in_store mongo elastic k w.store ≡ true → in_store mongo elastic k s ≡ true)
      → Safe mongo elastic w
      → Safe mongo elastic (record w { store = s })
  stored-Safe w s grows v = record {
    no_phantom = λ k h. grows k (v.no_phantom k h);
    acked_stored =
        acked_mono w.store s w.search w.search grows (λ k h. h) w.acknowledged v.acked_stored;
  }

  pub searched-Safe :
      (w : World mongo elastic) (s : elastic.State) (id : ℕ)
      → ((k : ℕ) → in_search mongo elastic k w.search ≡ true → in_search mongo elastic k s ≡ true)
      → ((k : ℕ)
          → in_search mongo elastic k s ≡ true
          → nat_beq id k ≡ false
          → in_search mongo elastic k w.search ≡ true)
      → in_store mongo elastic id w.store ≡ true
      → Safe mongo elastic w
      → Safe mongo elastic (record w { search = s })
  searched-Safe w s id grows only mine v = record {
    no_phantom = λ k h. elim (Bool-cases (nat_beq id k)) [
      | inl same ↦
          ap (λ j. in_store mongo elastic j w.store) (sym ((nat_beq_iff id k).0 same)) ∙ mine
      | inr other ↦ v.no_phantom k (only k h other)
    ];
    acked_stored =
        acked_mono w.store w.store w.search s (λ k h. h) grows w.acknowledged v.acked_stored;
  }
