-- ===== src/Config/Dependencies.antt =====
-- `validateDependencies` of services/snmp-collector/internal/config/config.go: the upstream
-- references of an inventory, then a search for cycles that colours each device. `visit` recurses
-- to a depth that the model bounds by fuel; `none` is fuel that ran out. The path that the code
-- builds as it descends is never read and has no counterpart.
use monitoring_project.Prelude.{
  ℕ, zero, suc, String, Option, none, some, List, [], ◌∷◌, ◌=s=◌, Map, lookup, insert, keys, elem,
  length, sort_strings, if◌then◌else◌,
}
use monitoring_project.Prelude.Results.{Result, ok, error, Check, check_all}
use monitoring_project.Config.Types.{DeviceConfig, upstreams}

-- `byID`, where the last device with an id counts.
unfoldable pub by_id :
    {F : Type 0} → Map (DeviceConfig F) → List (DeviceConfig F) → Map (DeviceConfig F)
by_id m [] = m
by_id m (d ∷ ds) = by_id (insert d.id d m) ds

-- The first loop for one device, with the upstreams seen so far.
unfoldable pub check_upstreams : {V : Type 0} → Map V → String → List String → List String → Check
check_upstreams m id seen [] = ok tt
check_upstreams m id seen (up ∷ ups) =
    if elem up seen
    then error "device has a duplicate upstream_device_id"
    else if up =s= id
    then error "device cannot reference itself as an upstream"
    else elim (lookup up m) [
      | none ↦ error "device references a missing upstream"
      | some _ ↦ check_upstreams m id (up ∷ seen) ups
    ]

unfoldable pub check_references :
    {F : Type 0} → Map (DeviceConfig F) → List (DeviceConfig F) → Check
check_references m = check_all (λ d. check_upstreams m d.id [] (upstreams d))

pub data Colour : Type 0 where
  unvisited visiting visited : Colour

abbrev pub Colours : Type 0
Colours = Map Colour

-- `state[id]`
unfoldable pub colour_of : Colours → String → Colour
colour_of state id = elim (lookup id state) [ none ↦ unvisited | some c ↦ c ]

-- `byID[id].UpstreamDeviceIDs`
unfoldable pub upstreams_of : {F : Type 0} → Map (DeviceConfig F) → String → List String
upstreams_of m id = elim (lookup id m) [ none ↦ [] | some d ↦ upstreams d ]

abbrev pub Search : Type 0
Search = Option (Result Colours)

unfoldable pub and_then : Search → (Colours → Search) → Search
and_then none f = none
and_then (some (error e)) f = some (error e)
and_then (some (ok state)) f = f state

-- A loop of calls of `visit`.
unfoldable pub visit_each : (String → Colours → Search) → List String → Colours → Search
visit_each call [] state = some (ok state)
visit_each call (id ∷ ids) state = and_then (call id state) (λ s. visit_each call ids s)

-- `visit`, by the colour of the device.
unfoldable pub visit_coloured :
    (String → Colours → Search) → List String → String → Colours → Colour → Search
visit_coloured call ups id state visiting = some (error "dependency cycle detected at device")
visit_coloured call ups id state visited = some (ok state)
visit_coloured call ups id state unvisited =
    and_then (visit_each call ups (insert id visiting state)) (λ s. some (ok (insert id visited s)))

unfoldable pub visit : {F : Type 0} → ℕ → Map (DeviceConfig F) → String → Colours → Search
visit zero m id state = none
visit (suc fuel) m id state =
    visit_coloured (visit fuel m) (upstreams_of m id) id state (colour_of state id)

-- The second loop.
unfoldable pub search_cycles : {F : Type 0} → Map (DeviceConfig F) → Search
search_cycles m = visit_each (visit (suc (length (keys m))) m) (sort_strings (keys m)) []

unfoldable pub searched : Search → Option Check
searched none = none
searched (some (error e)) = some (error e)
searched (some (ok _)) = some (ok tt)

unfoldable pub validate_dependencies : {F : Type 0} → List (DeviceConfig F) → Option Check
validate_dependencies devices =
    let m = by_id [] devices in
    elim (check_references m devices) [
      | error e ↦ some (error e)
      | ok _ ↦ searched (search_cycles m)
    ]
