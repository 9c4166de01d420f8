-- ===== src/Solvers/Picker.antt =====
-- Pick of pkg/util/solverpicker/solverpicker.go and the selectors of
-- pkg/controller/acmeorders/selectors. A solver's configuration is opaque to them; the order's labels
-- are a lookup function; a map of required labels is the list of its entries, in any order. Log
-- lines are left out. The two functions of the DNS library are parameters.
use cert_manager.Common.{
  ℕ, ◌+◌, String, Bool, true, false, not, ◌&&◌, ◌||◌, Option, none, some, List, [], ◌∷◌, ltb, eqb,
  ◌==◌, if◌then◌else◌, any,
}

pub record Selector : Type 0 where
  pub match_labels : List (String × String)
  pub dns_names : List String
  pub dns_zones : List String

pub record Solver : Type 0 where
  pub selector : Option Selector
  pub http01 : Option String
  pub dns01 : Option String

pub record AcmeChallenge : Type 0 where
  pub url : String
  pub token : String
  pub type : String

-- `dns.CompareDomainName` and `dns.CountLabel` of github.com/miekg/dns.
pub record DomainNames : Type 0 where
  pub compare_domain_name : String → String → ℕ
  pub count_label : String → ℕ

unfoldable pub is_some : Option String → Bool
is_some none = false
is_some (some _) = true

-- `hasLabel && v == actualV`
unfoldable pub has_label : Option String → String → Bool
has_label none v = false
has_label (some actual) v = v == actual

-- The loop of labelSelector.Matches, from a number of matches on.
unfoldable pub match_labels_from : (String → Option String) → ℕ → List (String × String) → Bool × ℕ
unfolding has_label
match_labels_from labels matches [] = (true, matches)
match_labels_from labels matches ((k, v) ∷ rest) =
    let more = match_labels_from labels (matches + 1) rest in
    if has_label (labels k) v then more else (false, matches)

unfoldable pub labels_match : List (String × String) → (String → Option String) → Bool × ℕ
unfolding match_labels_from
labels_match required labels = match_labels_from labels 0 required

unfoldable pub dns_names_match : List String → String → Bool × ℕ
dns_names_match [] dns_name = (true, 0)
dns_names_match (n ∷ ns) dns_name =
    if any (λ allowed. allowed == dns_name) (n ∷ ns) then (true, 1) else (false, 0)

-- The loop of dnsZonesSelector.Matches, from a maximum on.
unfoldable pub max_zone_labels : DomainNames → String → ℕ → List String → ℕ
max_zone_labels d dns_name most [] = most
max_zone_labels d dns_name most (zone ∷ zones) =
    let matching = d.compare_domain_name zone dns_name in
    max_zone_labels d dns_name
      (if eqb matching (d.count_label zone) && ltb most matching then matching else most) zones

unfoldable pub dns_zones_match : DomainNames → List String → String → Bool × ℕ
unfolding max_zone_labels
dns_zones_match d [] dns_name = (true, 0)
dns_zones_match d (z ∷ zs) dns_name =
    let most = max_zone_labels d dns_name 0 (z ∷ zs) in (ltb 0 most, most)

unfoldable pub challenge_for_solver : Solver → List AcmeChallenge → Option AcmeChallenge
unfolding is_some
challenge_for_solver solver [] = none
challenge_for_solver solver (ch ∷ challenges) =
    if ch.type == "http-01" && is_some solver.http01
    then some ch
    else if ch.type == "dns-01" && is_some solver.dns01
    then some ch
    else challenge_for_solver solver challenges

-- The variables of the loop.
pub record Picked : Type 0 where
  pub choice : Option (Solver × AcmeChallenge)
  pub labels : ℕ
  pub names : ℕ
  pub zones : ℕ

abbrev pub nothing : Picked
nothing = record { choice = none; labels = 0; names = 0; zones = 0 }

-- The comparison with the previous choice, once the selector matches.
unfoldable pub more_specific : Picked → (labels names zones : ℕ) → Bool
more_specific st labels names zones =
    let had_names = ltb 0 st.names in
    let has_names = ltb 0 names in
    let had_zones = ltb 0 st.zones in
    let has_zones = ltb 0 zones in
    if not had_names && has_names
    then true
    else if had_names && not has_names
    then false
    else if had_names && has_names
    then (if ltb st.zones zones
        then true
        else if ltb zones st.zones
        then false
        else ltb st.labels labels)
    else if not had_zones && has_zones
    then true
    else if had_zones && not has_zones
    then false
    else if had_zones && has_zones
    then (if ltb st.zones zones
        then true
        else if ltb zones st.zones
        then false
        else ltb st.labels labels)
    else ltb st.labels labels

module _ (d : DomainNames) (labels : String → Option String) (domain : String) where
  -- One round of the loop for a solver with a selector that can do the challenge.
  unfoldable pub consider_selector : Selector → Solver → AcmeChallenge → Picked → Picked
  consider_selector sel cfg ch st =
      let (labels_ok, num_labels) = labels_match sel.match_labels labels in
      let (names_ok, num_names) = dns_names_match sel.dns_names domain in
      let (zones_ok, num_zones) = dns_zones_match d sel.dns_zones domain in
      let selected : Picked = record {
        choice = some (cfg, ch);
        labels = num_labels;
        names = num_names;
        zones = num_zones;
      } in
      if not labels_ok || not names_ok || not zones_ok then st else elim st.choice [
        | none ↦ selected
        | some _ ↦ if more_specific st num_labels num_names num_zones then selected else st
      ]

  -- The same for a solver without one.
  unfoldable pub consider_default : Solver → AcmeChallenge → Picked → Picked
  consider_default cfg ch st = elim st.choice [
    | none ↦ record st { choice = some (cfg, ch) }
    | some _ ↦ st
  ]

  unfoldable pub consider : List AcmeChallenge → Solver → Picked → Picked
  unfolding consider_selector consider_default
  consider challenges cfg st = elim (challenge_for_solver cfg challenges) [
    | none ↦ st
    | some ch ↦ elim cfg.selector [
      | none ↦ consider_default cfg ch st
      | some sel ↦ consider_selector sel cfg ch st
    ]
  ]

  unfoldable pub pick_from : List AcmeChallenge → List Solver → Picked → Picked
  pick_from challenges [] st = st
  pick_from challenges (cfg ∷ solvers) st =
      pick_from challenges solvers (consider challenges cfg st)

  unfoldable pub pick : List AcmeChallenge → List Solver → Option (Solver × AcmeChallenge)
  unfolding pick_from
  pick challenges solvers = (pick_from challenges solvers nothing).choice
