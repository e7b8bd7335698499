-- ===== src/Darkweb/Monitor/Tests.antt =====
-- A run of the monitor on six entities, of which five are searched.
use ocrowley_commons.Common.{
  List, String, [], if◌then◌else◌, map, none, refl, str_eq, true, ◌∷◌, ◌≡◌,
}
use ocrowley_commons.Darkweb.Policy.{DarkwebAuthorization}
use ocrowley_commons.Darkweb.Monitor.{
  DarkWebEntityResult, MonitorInput, base_report, entity_result, text_input,
}

abbrev test_auth : DarkwebAuthorization
test_auth = record {
  actor_id = "me";
  roles = "counsel" ∷ [];
  authorization_ref = "C1";
  purpose = "test";
  environment = none;
  lawful_use_acknowledged = true;
}

abbrev six_entities : List MonitorInput
six_entities =
    text_input "a@x"
    ∷ text_input "b"
    ∷ text_input "c"
    ∷ text_input "d"
    ∷ text_input "e"
    ∷ text_input "f"
    ∷ []

abbrev test_search : String → List String
test_search value = if str_eq value "b" then [] else value ∷ value ∷ []

abbrev test_check : String → List String
test_check value = "x" ∷ "y" ∷ []

-- Six count as checked, five have results, and the e-mail address alone has breaches.
counts_test : (base_report test_search test_check 5 3 six_entities).total_entities_checked ≡ 6
unfolding base_report entity_result
counts_test = refl

totals_test :
    map
      (λ (r : DarkWebEntityResult String String). r.total_mentions)
      (base_report test_search test_check 5 3 six_entities).results
    ≡ 4 ∷ 0 ∷ 2 ∷ 2 ∷ 2 ∷ []
unfolding base_report entity_result
totals_test = refl
