-- ===== src/Examples/Buckets.antt =====
-- Merges into the rules of a bucket.
use teploy_dash.Common.{true, false, none, some, List, [], ◌∷◌, ◌≡◌, refl, pos, length, join, ◌≤◌}
use teploy_dash.Operation.Build.{sort_strings}
use teploy_dash.B2.{Rule, merge, window_prefixes, base_prefix, incoming_prefix, max_rules}
use teploy_dash.B2.Kept.{Keeps, owned_prefixes, merge-Keeps}
use teploy_dash.B2.Changed.{merge-changed}

abbrev foreign_rule : Rule
foreign_rule = record {
  prefix = "photos/";
  hide_to_delete = some (pos 3);
  upload_to_hide = none;
  cancel_unfinished_large = none;
  foreign = true;
  raw = "{}";
}

abbrev base_rule : Rule
base_rule = record {
  prefix = "teploy/";
  hide_to_delete = some (pos 14);
  upload_to_hide = none;
  cancel_unfinished_large = some (pos 7);
  foreign = false;
  raw = "";
}

abbrev box_rule : Rule
box_rule = record {
  prefix = "teploy/box/.incoming/";
  hide_to_delete = some (pos 1);
  upload_to_hide = some (pos 1);
  cancel_unfinished_large = none;
  foreign = false;
  raw = "";
}

abbrev merged : List Rule
merged = foreign_rule ∷ base_rule ∷ box_rule ∷ []

merged_ok :
    merge (foreign_rule ∷ []) "teploy" ("teploy/box" ∷ []) (pos 14) false ≡ some (merged, true)
unfolding merge sort_strings window_prefixes base_prefix incoming_prefix join
merged_ok = refl

merge-Keeps_example : Keeps (owned_prefixes "teploy" ("teploy/box" ∷ [])) (foreign_rule ∷ []) merged
merge-Keeps_example =
    merge-Keeps (foreign_rule ∷ []) "teploy" ("teploy/box" ∷ []) (pos 14) false merged true
      merged_ok

merge-changed_example :
    (true ≡ false → merged ≡ foreign_rule ∷ []) × (true ≡ true → length merged ≤ max_rules)
merge-changed_example =
    merge-changed (foreign_rule ∷ []) "teploy" ("teploy/box" ∷ []) (pos 14) false merged true
      merged_ok
