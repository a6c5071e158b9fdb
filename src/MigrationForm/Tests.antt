-- ===== src/MigrationForm/Tests.antt =====
-- The form at concrete inputs.
use future_was.Base.{false, none, codes, ◌≡◌, ◌↔◌}
use future_was.Base.Trim.{all_white}
use future_was.Api.{game}
use future_was.MigrationForm.{Form, refusal}
use future_was.MigrationForm.Patterns.{IsVersion, IsName, refusal_iff}

abbrev filled_form : Form
filled_form = record {
  category = game;
  version = "2.01.02";
  name = "add_index";
  author = " lee ";
  up_sql = "";
  down_sql = "";
  submitting = false;
  error = none;
}

refusal_iff_example :
    (refusal filled_form ≡ none)
    ↔ (IsVersion (codes "2.01.02") × IsName (codes "add_index") × (all_white " lee " ≡ false))
refusal_iff_example = refusal_iff filled_form
