-- ===== src/Scheduler/Checks/Laws.antt =====
-- internal/scheduler/types.go: what a request has that SimulationRequest.Validate accepts.
use code_maintainer.Base.{◌≡◌, String, true, false, arith, none, List, [], ◌∷◌, ◌++◌, All}
use code_maintainer.Scheduler.Types.{ResourceProfile, QueueItem, SimulationRequest, one_of}
use code_maintainer.Scheduler.Checks.{
  topology_valid, profile_valid, item_valid, check_profiles, check_items, validate_request,
  known_mode, default_mode, bad_sizes, profile_ids,
}

check_profiles-All :
    (seen : List String) (ps : List ResourceProfile)
    → check_profiles seen ps ≡ none
    → All (λ p. profile_valid p ≡ true) ps
unfolding check_profiles
check_profiles-All seen [] h = tt
check_profiles-All seen (p ∷ ps) h =
    (ground arith, check_profiles-All (p.id ∷ seen) ps (ground arith))

check_items-All :
    (known seen : List String) (items : List QueueItem)
    → check_items known seen items ≡ none
    → All (λ i. (item_valid i ≡ true) × (one_of known i.profile_id ≡ true)) items
unfolding check_items
check_items-All known seen [] h = tt
check_items-All known seen (i ∷ items) h =
    ((ground arith, ground arith), check_items-All known (i.job_id ∷ seen) items (ground arith))

pub record IsChecked (r : SimulationRequest) : Type 0 where
  pub mode : known_mode (default_mode r.mode) ≡ true
  pub topology : topology_valid r.topology ≡ true
  pub sizes : bad_sizes r ≡ false
  pub profiles : All (λ p. profile_valid p ≡ true) r.profiles
  pub items :
      All
        (λ i. (item_valid i ≡ true) × (one_of (profile_ids r.profiles) i.profile_id ≡ true))
        (r.active ++ r.queued)

pub validate_request-IsChecked : (r : SimulationRequest) → validate_request r ≡ none → IsChecked r
unfolding validate_request
validate_request-IsChecked r h = record {
  mode = ground arith;
  topology = ground arith;
  sizes = ground arith;
  profiles = check_profiles-All [] r.profiles (ground arith);
  items = check_items-All (profile_ids r.profiles) [] (r.active ++ r.queued) (ground arith);
}
