-- ===== src/EventBus/Keys.antt =====
-- The keys of the consumer groups: what `splitKey` makes of the text that `subscribe` builds.
use Prim.Native.String.append
use Prim.Native.String.{◌++◌ as join}
use supply_chain_mangement_s.Common.{String, ◌≡◌, ◌∙◌, ap, Bool, false, ◌||◌, ◌==◌, arith}
use supply_chain_mangement_s.EventBus.{group_key, split_key}

-- Whether a text has a colon.
abbrev pub has_colon : String → Bool
has_colon String.[] = false
has_colon (String.◌∷◌ c s) = String.◌∷◌ c String.[] == ":" || has_colon s

-- A group's key splits into its topic and its id, if the topic has no colon; the id may have any.
pub split_key-group_key :
    (topic group_id : String)
    → has_colon topic ≡ false
    → split_key (group_key topic group_id) ≡ (topic, group_id)
unfolding split_key group_key
split_key-group_key String.[] group_id h = ap split_key (
    append.nil (join ":" group_id)
    ∙ append.cons ":" "" group_id
    ∙ ap (String.◌∷◌ ":") (append.nil group_id))
split_key-group_key (String.◌∷◌ c s) group_id h =
    let ih = split_key-group_key s group_id (ground (arith, h)) in
    ap split_key (append.cons c s (join ":" group_id)) ∙ ground (arith, h, ih)
