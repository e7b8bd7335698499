-- ===== src/Darkweb/Monitor.antt =====
-- packages/darkweb/src/monitor.ts: the monitor of entities. The two providers and the summary are
-- parameters: mentions are of any type `M` and breaches of any type `D`; a summary that throws is none.
-- A provider returns: those of the repository catch the errors of their fetches. The time of a report
-- is left out.
pub mod Report
mod Tests
use Prim.Native.Char.{code}
use ocrowley_commons.Common.{
  Bool, List, Option, Result, String, [], err, false, filter, get_or, if◌then◌else◌, leb, length,
  ltb, map, none, ok, some, str_eq, take, true, ℕ, ◌+◌, ◌==◌, ◌||◌, ◌∷◌,
}
use ocrowley_commons.Darkweb.Policy.{
  DarkwebAuthorization, DarkwebError, assert_darkweb_allowed, monitor_entities,
}

pub record DarkWebEntityInput : Type 0 where
  pub value : String
  pub kind : Option String

-- An entity is a text or an input.
pub data MonitorInput : Type 0 where
  text_input : String → MonitorInput
  entity_input : DarkWebEntityInput → MonitorInput

pub record DarkWebEntityResult (M D : Type 0) : Type 0 where
  pub entity : String
  pub kind : String
  pub dark_web_mentions : List M
  pub breach_data : List D
  pub total_mentions : ℕ

pub record DarkWebMonitorReport (M D : Type 0) : Type 0 where
  pub results : List (DarkWebEntityResult M D)
  pub total_entities_checked : ℕ
  pub total_mentions_found : ℕ
  pub high_risk_entities : List (DarkWebEntityResult M D)
  pub available : Bool
  pub reason : Option String
  pub ai_summary : Option String

pub data RiskBand : Type 0 where
  no_risk low_risk medium_risk high_risk : RiskBand

unfoldable pub risk_band : ℕ → RiskBand
risk_band total_mentions =
    if leb total_mentions 0
    then no_risk
    else if leb total_mentions 1
    then low_risk
    else if leb total_mentions 3
    then medium_risk
    else high_risk

-- `value.includes('@')`.
abbrev pub has_at : String → Bool
has_at String.[] = false
has_at (String.◌∷◌ c s) = code c == 64 || has_at s

abbrev pub kind_of_text : String → String
kind_of_text value = if has_at value then "email" else "unknown"

abbrev pub normalised : MonitorInput → DarkWebEntityInput
normalised (text_input value) = record { value = value; kind = some (kind_of_text value) }
normalised (entity_input e) = e

module _ {M D : Type 0} where
  abbrev pub mentions_sum : List (DarkWebEntityResult M D) → ℕ
  mentions_sum [] = 0
  mentions_sum (r ∷ rs) = r.total_mentions + mentions_sum rs

  module _ (search : String → List M) (check : String → List D) where
    -- The breach provider is asked about e-mail addresses only.
    unfoldable pub entity_result : DarkWebEntityInput → DarkWebEntityResult M D
    entity_result e =
        let kind = get_or e.kind (kind_of_text e.value) in
        let mentions = search e.value in
        let breaches = if str_eq kind "email" || has_at e.value then check e.value else [] in
        record {
          entity = e.value;
          kind = kind;
          dark_web_mentions = mentions;
          breach_data = breaches;
          total_mentions = length mentions + length breaches;
        }

    unfoldable pub base_report :
        (limit threshold : ℕ) → List MonitorInput → DarkWebMonitorReport M D
    unfolding entity_result
    base_report limit threshold entities =
        let inputs = map normalised entities in
        let results = map entity_result (take limit inputs) in
        record {
          results = results;
          total_entities_checked = length inputs;
          total_mentions_found = mentions_sum results;
          high_risk_entities =
              filter (λ (r : DarkWebEntityResult M D). ltb threshold r.total_mentions) results;
          available = true;
          reason = none;
          ai_summary = none;
        }

    unfoldable pub with_summary :
        Option (DarkWebMonitorReport M D → Option String)
        → DarkWebMonitorReport M D
        → DarkWebMonitorReport M D
    with_summary none base = base
    with_summary (some summarise) base =
        let told = record base { ai_summary = summarise base } in
        if ltb 0 base.total_mentions_found then told else base

    unfoldable pub monitor_dark_web :
        (id_le : String → String → Bool)
        → DarkwebAuthorization
        → (limit threshold : Option ℕ) → Option (DarkWebMonitorReport M D → Option String)
        → List MonitorInput
        → Result DarkwebError (DarkWebMonitorReport M D)
    unfolding assert_darkweb_allowed with_summary base_report
    monitor_dark_web id_le auth limit threshold summarise entities =
        elim (assert_darkweb_allowed id_le monitor_entities auth) [
          | err e ↦ err e
          | ok _ ↦
              ok (
                with_summary summarise (base_report (get_or limit 5) (get_or threshold 3) entities))
        ]

  -- The report where no providers are configured.
  unfoldable pub unavailable_monitor_report : ℕ → DarkWebMonitorReport M D
  unavailable_monitor_report entity_count = record {
    results = [];
    total_entities_checked = entity_count;
    total_mentions_found = 0;
    high_risk_entities = [];
    available = false;
    reason = some "darkweb_search_unavailable";
    ai_summary = none;
  }
