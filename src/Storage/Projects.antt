-- ===== src/Storage/Projects.antt =====
-- Claims, passes, surface marks and supersession: `markSuperseded` to `projectSurfaced` of
-- src/storage/memoryBackend.ts.
use claude_ipc.Base.{
  Text, ◌==◌, Bool, true, false, Option, none, some, contains, add, if◌then◌else◌,
}
use claude_ipc.Base.Map
use claude_ipc.Base.Map.{has}
use claude_ipc.Storage.State.{Backend, del_key}

unfoldable pub mark_superseded : Backend → Text → Text → Backend
mark_superseded b superseded_id by_superseding_id = record b {
  superseded_by_map = Map.set b.superseded_by_map superseded_id by_superseding_id;
}

abbrev pub superseded_by : Backend → Text → Option Text
superseded_by b msg_id = Map.get b.superseded_by_map msg_id

-- Exclusive ownership of a project ask; `false` when somebody has it.
unfoldable pub claim_project : Backend → Text → Text → Backend × Bool
claim_project b msg_id alias =
    if has b.claims msg_id
    then (b, false)
    else (record b { claims = Map.set b.claims msg_id alias }, true)

unfoldable pub release_claim : Backend → Text → Backend
release_claim b msg_id = record b { claims = Map.delete b.claims msg_id }

abbrev pub project_claim : Backend → Text → Option Text
project_claim b msg_id = Map.get b.claims msg_id

unfoldable pub pass_project : Backend → Text → Text → Backend
pass_project b msg_id alias = record b { passes = add b.passes (del_key msg_id alias) }

pub data Standing : Type 0 where
  claimed passed : Standing

unfoldable pub project_standing : Backend → Text → Text → Option Standing
project_standing b msg_id alias =
    if elim (Map.get b.claims msg_id) [ none ↦ false | some owner ↦ owner == alias ]
    then some claimed
    else if contains b.passes (del_key msg_id alias)
    then some passed
    else none

unfoldable pub mark_project_surfaced : Backend → Text → Text → Backend
mark_project_surfaced b msg_id alias = record b {
  project_surfaces = add b.project_surfaces (del_key msg_id alias);
}

unfoldable pub project_surfaced : Backend → Text → Text → Bool
project_surfaced b msg_id alias = contains b.project_surfaces (del_key msg_id alias)
