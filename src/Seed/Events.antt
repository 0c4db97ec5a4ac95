-- ===== src/Seed/Events.antt =====
-- scripts/seed.py: what the events that it sends are made of. What the generator of random numbers returns
-- is an argument.
use feathr_events.Prelude.{
  ℕ, ℤ, pos, negsuc, zero, suc, ◌+◌, ◌-◌, ◌*◌, ◌/◌, ◌%◌, List, [], ◌∷◌, ◌++◌, Option, none, some,
  Bool, ltb, leb, if◌then◌else◌,
}
use feathr_events.Models.{Text, bool, num, str, Fields, end, field}
use feathr_events.Seed.Words.{
  event_mix, kind_name, browsers, devices, countries, campaigns, plans, codes, browser_key,
  device_key, country_key, campaign_key, amount_key, currency_key, usd, plan_key, referred_key,
  code_key, retryable_key, quantity_key, shop, Kind, pageview, click, add_to_cart, conversion,
  signup, error,
}
use feathr_events.Ingest.{aware}
use feathr_events.Ingest.Body.{Body}

-- A roll is a whole number of these parts of a unit of weight.
abbrev pub parts : ℕ
parts = 1_000_000

-- The loop of `weighted_type`.
abbrev pub first_upto : (roll upto : ℕ) → List (Kind × ℕ) → Option Kind
first_upto roll upto [] = none
first_upto roll upto ((kind, weight) ∷ mix) =
    let further = first_upto roll (upto + weight) mix in
    if leb roll ((upto + weight) * parts) then some kind else further

unfoldable pub weighted_type : (roll : ℕ) → Kind
weighted_type roll = elim (first_upto roll 0 event_mix) [ none ↦ pageview | some kind ↦ kind ]

-- `str(n)` of a number below ten to the power of `places + 1`
abbrev pub decimal : (places : ℕ) → ℕ → Text
decimal zero n = (48 + n % 10) ∷ []
decimal (suc k) n =
    let further = decimal k (n / 10) in
    if ltb n 10 then (48 + n) ∷ [] else further ++ (48 + n % 10) ∷ []

-- `rng.choice(xs)`, where the generator has drawn the index
abbrev pub choice_from : Text → List Text → ℕ → Text
choice_from x [] i = x
choice_from x (y ∷ xs) zero = x
choice_from x (y ∷ xs) (suc i) = choice_from y xs i

abbrev pub choice : List Text → ℕ → Text
choice [] i = []
choice (x ∷ xs) i = choice_from x xs i

-- What is drawn for an event. `age` is how far back it is dated, in microseconds: the days, hours
-- and minutes together, less than nothing with `--days` below 0, and within what `datetime` holds. `amount` is what JSON writes for the rounded amount. `heavy`, `campaign`, `referred`
-- and `retryable` are the outcomes of comparisons.
pub record Draws : Type 0 where
  pub roll : ℕ
  pub age : ℤ
  pub browser : ℕ
  pub device : ℕ
  pub country : ℕ
  pub campaign : Option ℕ
  pub amount : Text
  pub plan : ℕ
  pub referred : Bool
  pub code : ℕ
  pub retryable : Bool
  pub quantity : ℕ
  pub heavy : Bool
  pub heavy_user : ℕ
  pub light_user : ℕ
  pub path : ℕ
  pub product : ℕ

-- u-
unfoldable pub make_user : Draws → Text
make_user d = 117 ∷ 45 ∷ decimal 3 (if d.heavy then d.heavy_user else d.light_user)

-- The keys that only some kinds have.
unfoldable pub own_metadata : Kind → Draws → Fields
own_metadata conversion d = field amount_key (num d.amount) (field currency_key (str usd) end)
own_metadata signup d =
    field plan_key (str (choice plans d.plan)) (field referred_key (bool d.referred) end)
own_metadata error d =
    field code_key (str (choice codes d.code)) (field retryable_key (bool d.retryable) end)
own_metadata add_to_cart d = field quantity_key (num (decimal 3 d.quantity)) end
own_metadata pageview d = end
own_metadata click d = end

abbrev pub with_campaign : Option ℕ → Fields → Fields
with_campaign none fs = fs
with_campaign (some i) fs = field campaign_key (str (choice campaigns i)) fs

-- The keys are distinct, so that `|=` appends.
unfoldable pub metadata_of : Kind → Draws → Fields
unfolding own_metadata
metadata_of kind d = field browser_key (str (choice browsers d.browser)) (
    field device_key (str (choice devices d.device)) (
      field country_key (str (choice countries d.country))
        (with_campaign d.campaign (own_metadata kind d))))

-- /product/{n}, /category/shoes, /category/outerwear, /checkout, /search, /
abbrev paths : (product : ℕ) → List Text
paths n =
    ((47 ∷ 112 ∷ 114 ∷ 111 ∷ 100 ∷ 117 ∷ 99 ∷ 116 ∷ 47 ∷ []) ++ decimal 3 n)
    ∷ (47 ∷ 99 ∷ 97 ∷ 116 ∷ 101 ∷ 103 ∷ 111 ∷ 114 ∷ 121 ∷ 47 ∷ 115 ∷ 104 ∷ 111 ∷ 101 ∷ 115 ∷ [])
    ∷ (47 ∷ 99 ∷ 97 ∷ 116 ∷ 101 ∷ 103 ∷ 111 ∷ 114 ∷ 121 ∷ 47 ∷ 111 ∷ 117 ∷ 116 ∷ 101 ∷ 114 ∷ 119
        ∷ 101 ∷ 97 ∷ 114 ∷ [])
    ∷ (47 ∷ 99 ∷ 104 ∷ 101 ∷ 99 ∷ 107 ∷ 111 ∷ 117 ∷ 116 ∷ [])
    ∷ (47 ∷ 115 ∷ 101 ∷ 97 ∷ 114 ∷ 99 ∷ 104 ∷ [])
    ∷ (47 ∷ [])
    ∷ []

-- `datetime.now(UTC) - timedelta(...)`: what is dated back by less than nothing lies ahead.
abbrev pub dated : (clock : ℕ) → ℤ → ℕ
dated clock (pos age) = clock - age
dated clock (negsuc n) = clock + (n + 1)

-- `make_event`, as JSON carries it. An instant before the epoch is 0 here.
unfoldable pub make_event : (clock : ℕ) → Draws → Body
unfolding weighted_type make_user metadata_of
make_event clock d = record {
  event_type = kind_name (weighted_type d.roll);
  user_id = make_user d;
  source_url = shop ++ choice (paths d.product) d.path;
  timestamp = some (aware (dated clock d.age));
  metadata = metadata_of (weighted_type d.roll) d;
  unexpected = [];
}
