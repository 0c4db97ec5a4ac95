-- ===== src/Seed/Words.antt =====
-- scripts/seed.py: the words that the events are made of.
use feathr_events.Prelude.{ℕ, List, [], ◌∷◌}
use feathr_events.Models.{Text}

pub data Kind : Type 0 where
  pageview click add_to_cart conversion signup error : Kind

abbrev pub event_mix : List (Kind × ℕ)
event_mix =
    (pageview, 60)
    ∷ (click, 22)
    ∷ (add_to_cart, 9)
    ∷ (conversion, 5)
    ∷ (signup, 3)
    ∷ (error, 1)
    ∷ []

-- The string that stands for a kind.
abbrev pub kind_name : Kind → Text
kind_name pageview = 112 ∷ 97 ∷ 103 ∷ 101 ∷ 118 ∷ 105 ∷ 101 ∷ 119 ∷ []
kind_name click = 99 ∷ 108 ∷ 105 ∷ 99 ∷ 107 ∷ []
kind_name add_to_cart = 97 ∷ 100 ∷ 100 ∷ 95 ∷ 116 ∷ 111 ∷ 95 ∷ 99 ∷ 97 ∷ 114 ∷ 116 ∷ []
kind_name conversion = 99 ∷ 111 ∷ 110 ∷ 118 ∷ 101 ∷ 114 ∷ 115 ∷ 105 ∷ 111 ∷ 110 ∷ []
kind_name signup = 115 ∷ 105 ∷ 103 ∷ 110 ∷ 117 ∷ 112 ∷ []
kind_name error = 101 ∷ 114 ∷ 114 ∷ 111 ∷ 114 ∷ []

-- chrome, firefox, safari, edge, webkit-nightly
abbrev pub browsers : List Text
browsers =
    (99 ∷ 104 ∷ 114 ∷ 111 ∷ 109 ∷ 101 ∷ [])
    ∷ (102 ∷ 105 ∷ 114 ∷ 101 ∷ 102 ∷ 111 ∷ 120 ∷ [])
    ∷ (115 ∷ 97 ∷ 102 ∷ 97 ∷ 114 ∷ 105 ∷ [])
    ∷ (101 ∷ 100 ∷ 103 ∷ 101 ∷ [])
    ∷ (119 ∷ 101 ∷ 98 ∷ 107 ∷ 105 ∷ 116 ∷ 45 ∷ 110 ∷ 105 ∷ 103 ∷ 104 ∷ 116 ∷ 108 ∷ 121 ∷ [])
    ∷ []

-- mobile, desktop, tablet
abbrev pub devices : List Text
devices =
    (109 ∷ 111 ∷ 98 ∷ 105 ∷ 108 ∷ 101 ∷ [])
    ∷ (100 ∷ 101 ∷ 115 ∷ 107 ∷ 116 ∷ 111 ∷ 112 ∷ [])
    ∷ (116 ∷ 97 ∷ 98 ∷ 108 ∷ 101 ∷ 116 ∷ [])
    ∷ []

-- us, ar, es, br, de, jp
abbrev pub countries : List Text
countries =
    (117 ∷ 115 ∷ [])
    ∷ (97 ∷ 114 ∷ [])
    ∷ (101 ∷ 115 ∷ [])
    ∷ (98 ∷ 114 ∷ [])
    ∷ (100 ∷ 101 ∷ [])
    ∷ (106 ∷ 112 ∷ [])
    ∷ []

-- spring-sale, retargeting, newsletter, organic, paid-social
abbrev pub campaigns : List Text
campaigns =
    (115 ∷ 112 ∷ 114 ∷ 105 ∷ 110 ∷ 103 ∷ 45 ∷ 115 ∷ 97 ∷ 108 ∷ 101 ∷ [])
    ∷ (114 ∷ 101 ∷ 116 ∷ 97 ∷ 114 ∷ 103 ∷ 101 ∷ 116 ∷ 105 ∷ 110 ∷ 103 ∷ [])
    ∷ (110 ∷ 101 ∷ 119 ∷ 115 ∷ 108 ∷ 101 ∷ 116 ∷ 116 ∷ 101 ∷ 114 ∷ [])
    ∷ (111 ∷ 114 ∷ 103 ∷ 97 ∷ 110 ∷ 105 ∷ 99 ∷ [])
    ∷ (112 ∷ 97 ∷ 105 ∷ 100 ∷ 45 ∷ 115 ∷ 111 ∷ 99 ∷ 105 ∷ 97 ∷ 108 ∷ [])
    ∷ []

-- free, pro, enterprise
abbrev pub plans : List Text
plans =
    (102 ∷ 114 ∷ 101 ∷ 101 ∷ [])
    ∷ (112 ∷ 114 ∷ 111 ∷ [])
    ∷ (101 ∷ 110 ∷ 116 ∷ 101 ∷ 114 ∷ 112 ∷ 114 ∷ 105 ∷ 115 ∷ 101 ∷ [])
    ∷ []

-- E_TIMEOUT, E_PAYMENT, E_STOCK
abbrev pub codes : List Text
codes =
    (69 ∷ 95 ∷ 84 ∷ 73 ∷ 77 ∷ 69 ∷ 79 ∷ 85 ∷ 84 ∷ [])
    ∷ (69 ∷ 95 ∷ 80 ∷ 65 ∷ 89 ∷ 77 ∷ 69 ∷ 78 ∷ 84 ∷ [])
    ∷ (69 ∷ 95 ∷ 83 ∷ 84 ∷ 79 ∷ 67 ∷ 75 ∷ [])
    ∷ []

-- browser
abbrev pub browser_key : Text
browser_key = 98 ∷ 114 ∷ 111 ∷ 119 ∷ 115 ∷ 101 ∷ 114 ∷ []

-- device
abbrev pub device_key : Text
device_key = 100 ∷ 101 ∷ 118 ∷ 105 ∷ 99 ∷ 101 ∷ []

-- country
abbrev pub country_key : Text
country_key = 99 ∷ 111 ∷ 117 ∷ 110 ∷ 116 ∷ 114 ∷ 121 ∷ []

-- campaign
abbrev pub campaign_key : Text
campaign_key = 99 ∷ 97 ∷ 109 ∷ 112 ∷ 97 ∷ 105 ∷ 103 ∷ 110 ∷ []

-- amount
abbrev pub amount_key : Text
amount_key = 97 ∷ 109 ∷ 111 ∷ 117 ∷ 110 ∷ 116 ∷ []

-- currency
abbrev pub currency_key : Text
currency_key = 99 ∷ 117 ∷ 114 ∷ 114 ∷ 101 ∷ 110 ∷ 99 ∷ 121 ∷ []

-- usd
abbrev pub usd : Text
usd = 117 ∷ 115 ∷ 100 ∷ []

-- plan
abbrev pub plan_key : Text
plan_key = 112 ∷ 108 ∷ 97 ∷ 110 ∷ []

-- referred
abbrev pub referred_key : Text
referred_key = 114 ∷ 101 ∷ 102 ∷ 101 ∷ 114 ∷ 114 ∷ 101 ∷ 100 ∷ []

-- code
abbrev pub code_key : Text
code_key = 99 ∷ 111 ∷ 100 ∷ 101 ∷ []

-- retryable
abbrev pub retryable_key : Text
retryable_key = 114 ∷ 101 ∷ 116 ∷ 114 ∷ 121 ∷ 97 ∷ 98 ∷ 108 ∷ 101 ∷ []

-- quantity
abbrev pub quantity_key : Text
quantity_key = 113 ∷ 117 ∷ 97 ∷ 110 ∷ 116 ∷ 105 ∷ 116 ∷ 121 ∷ []

-- https://shop.example.com
abbrev pub shop : Text
shop =
    104 ∷ 116 ∷ 116 ∷ 112 ∷ 115 ∷ 58 ∷ 47 ∷ 47 ∷ 115 ∷ 104 ∷ 111 ∷ 112 ∷ 46 ∷ 101 ∷ 120 ∷ 97 ∷ 109
    ∷ 112 ∷ 108 ∷ 101 ∷ 46 ∷ 99 ∷ 111 ∷ 109 ∷ []
