-- ===== src/Logcheck/Collect.antt =====
-- scripts/logcheck.py: `collect`, and `main` over the parsed arguments and the outputs of docker. The
-- layout of what is printed is left out: the model says which counts and which records are.
use feathr_events.Prelude.{
  ℕ, ◌-◌, List, [], ◌∷◌, ◌++◌, Option, none, some, Bool, leb, if◌then◌else◌, map, Result, ok, ◌>>=◌,
  length, take, ◌&&◌,
}
use feathr_events.Models.{Text}
use feathr_events.Texts.{text_eq, text_beq, text_leb, strip, split}
use feathr_events.Dict
use feathr_events.Sorting.{filter, any, sort}
use feathr_events.Logcheck.{
  Service, Level, Parsed, Record, Raised, Library, unknown, error, rank, levels, service_names,
  name_of,
}
use feathr_events.Logcheck.Formats.{parse}

-- How `docker compose logs` ends: it does not run or takes too long, it fails, or it prints lines.
pub data Output : Type 0 where
  unreadable failed : Output
  printed : List Text → Output

-- The record of a line, from what its parser returned.
abbrev pub record_of : Service → Text → Option Parsed → Record
record_of service line none = record {
  parsed = record { ts = []; level = unknown; msg = strip line; src = 63 ∷ [] };
  service = service;
  raw = line;
}
record_of service line (some p) = record { parsed = p; service = service; raw = line }

-- `not line.strip()`
abbrev pub is_blank : Text → Bool
is_blank line = text_beq (strip line) []

-- `args.service`, the names that are known
unfoldable pub wanted_services : Text → List Service
unfolding Dict.get
wanted_services names = wanted (split 44 names)
  where
    wanted : List Text → List Service
    wanted [] = []
    wanted (s ∷ names) = elim (Dict.get (strip s) service_names) [
      | none ↦ wanted names
      | some service ↦ service ∷ wanted names
    ]

abbrev pub at_least : Level → Record → Bool
at_least level r = leb (rank level) (rank r.parsed.level)

-- The order of the key `(r["ts"] or "", r["service"])`.
abbrev pub before : Record → Record → Bool
before r s =
    if text_beq r.parsed.ts s.parsed.ts
    then text_leb (name_of r.service) (name_of s.service)
    else text_leb r.parsed.ts s.parsed.ts

abbrev pub of_service : Service → Record → Bool
of_service service r = text_beq (name_of r.service) (name_of service)

abbrev pub of_level : Level → Record → Bool
of_level level r = leb (rank level) (rank r.parsed.level) && leb (rank r.parsed.level) (rank level)

-- A row of the table: a service, how many of its records have each level, how many there are.
pub record Counts : Type 0 where
  pub service : Service
  pub by_level : List ℕ
  pub total : ℕ

-- What a run leaves: the exit code, the table, the records that are printed and saved, and how many
-- more there are.
pub record Run : Type 0 where
  pub code : ℕ
  pub table : List Counts
  pub shown : List Record
  pub more : ℕ
  pub saved : List Record

pub record Args : Type 0 where
  pub level : Level
  pub service : Text
  pub json : Bool
  pub limit : ℕ

unfoldable pub hits_of : Level → List Record → List Record
hits_of level all = sort before (filter (at_least level) all)

unfoldable pub exit_code : List Record → ℕ
exit_code hits = if any (at_least error) hits then 1 else 0

unfoldable pub counts_of : List Record → Service → Counts
counts_of all service =
    let rows = filter (of_service service) all in
    record {
      service = service;
      by_level = map (λ level. length (filter (of_level level) rows)) levels;
      total = length rows;
    }

unfoldable pub report : Args → List Service → List Record → Run
unfolding hits_of exit_code counts_of
report args wanted all =
    let hits = hits_of args.level all in
    if args.json
    then record { code = exit_code hits; table = []; shown = hits; more = 0; saved = hits }
    else record {
      code = exit_code hits;
      table = map (counts_of all) wanted;
      shown = take args.limit hits;
      more = length hits - args.limit;
      saved = [];
    }

module _ (lib : Library) where
  -- The loop of `collect`.
  unfoldable pub collect_lines : Service → List Text → Result Raised (List Record)
  collect_lines service [] = ok []
  collect_lines service (line ∷ further) =
      let rest = collect_lines service further in
      if is_blank line
      then rest
      else parse lib service line >>= (λ p. rest >>= (λ rs. ok (record_of service line p ∷ rs)))

  unfoldable pub collect : Service → Output → Result Raised (List Record)
  unfolding collect_lines
  collect service unreadable = ok []
  collect service failed = ok []
  collect service (printed lines) = collect_lines service lines

  unfoldable pub collect_all : (Service → Output) → List Service → Result Raised (List Record)
  unfolding collect
  collect_all outputs [] = ok []
  collect_all outputs (svc ∷ svcs) =
      let rest = collect_all outputs svcs in
      collect svc (outputs svc) >>= (λ rs. rest >>= (λ all. ok (rs ++ all)))

  unfoldable pub main : Args → (Service → Output) → Result Raised Run
  unfolding wanted_services collect_all report
  main args outputs =
      let wanted = wanted_services args.service in
      elim wanted [
        | [] ↦ ok (record { code = 2; table = []; shown = []; more = 0; saved = [] })
        | ◌∷◌ s ss ↦ collect_all outputs (s ∷ ss) >>= (λ all. ok (report args (s ∷ ss) all))
      ]
