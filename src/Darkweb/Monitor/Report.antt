-- ===== src/Darkweb/Monitor/Report.antt =====
-- What a report of the monitor says.
use ocrowley_commons.Common.{All, List, length, map, none, take, ℕ, ◌<◌, ◌≡◌, ◌≤◌}
use ocrowley_commons.Darkweb.Monitor.{
  DarkWebEntityResult, DarkWebMonitorReport, MonitorInput, mentions_sum, normalised,
}

module _ {M D : Type 0} where
  -- What a report promises: as many results as the limit allows, in the order of the entities; their
  -- mentions, added up; as risky those above the threshold; and a summary only of mentions.
  pub record IsReport (limit threshold : ℕ) (entities : List MonitorInput)
      (r : DarkWebMonitorReport M D) : Type 0 where
    pub searched :
        map (λ (e : DarkWebEntityResult M D). e.entity) r.results
        ≡ map (λ (e : MonitorInput). (normalised e).value) (take limit entities)
    pub bounded : length r.results ≤ limit
    pub counted : r.total_entities_checked ≡ length entities
    pub summed : r.total_mentions_found ≡ mentions_sum r.results
    pub risky :
        All (λ (h : DarkWebEntityResult M D). threshold < h.total_mentions) r.high_risk_entities
    pub silent : r.total_mentions_found ≡ 0 → r.ai_summary ≡ none
