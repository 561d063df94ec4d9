-- ===== src/Samples/Proposals.antt =====
-- The tab of the proposals at a concrete input.
use vector_guard.Prelude.{
  [], codes, get_elem?, insert, lookup, none, refl, show_nat, some, starts_with, text_eq, ◌∷◌, ◌≡◌,
}
use vector_guard.Tui.Render.{draw_pending, pending_cells, plain, green}
use vector_guard.Tui.Render.Popup.{draw_popup}
use vector_guard.Tui.Render.Highlighted.{Approved, Rejected, Shows, Highlights, press-highlighted}
use vector_guard.Tui.App.{PendingRow, pending_accept_current, Session}
use vector_guard.Tui.App.Editor.{with_approval}
use vector_guard.Tui.Keys.{char, press, normal_key}
use vector_guard.Tui.{Tab}
use vector_guard.Approval.{approve, files_of, pending_name}
use vector_guard.Samples.Interface.{env, session}

-- A proposal on its tab, and a popup with its details.
abbrev proposal : PendingRow
proposal = record {
  id = codes "1-no-nc";
  name = codes "no-nc";
  action = codes "block";
  description = [];
  age_secs = 90;
  toml_body = codes "[[rules]]\nname = \"no-nc\"\n";
}

-- Its file waits in the pending directory.
abbrev on_proposal : Session
on_proposal = record session {
  app = record session.app { active_tab = Tab.pending; pending = proposal ∷ [] };
  disk = record {
    pending =
        some ((pending_name proposal.id, record { body = proposal.toml_body; modified = 1 }) ∷ []);
    approved = none;
  };
}

highlights : Highlights env on_proposal 0 (pending_cells proposal)
unfolding with_approval draw_pending
highlights = record {
  normal = (refl, refl, refl);
  on_pending = refl;
  store = refl;
  selected = refl;
  row = refl;
}

press-highlighted_example :
    (p : PendingRow) × (get_elem? on_proposal.app.pending 0 ≡ some p)
    × (get_elem? (pending_cells proposal) 1 ≡ some (p.name, plain))
    × Approved env on_proposal p (press env (char b'a') on_proposal).0.disk
    × Rejected env on_proposal p (press env (char b'r') on_proposal).0.disk
    × Shows env on_proposal p (draw_popup env (press env (char b'v') on_proposal).0.app)
press-highlighted_example =
    press-highlighted env on_proposal 0 (pending_cells proposal) highlights refl (λ name. refl)
      (λ name. refl)

run_approved :
    lookup text_eq
      (codes "ai-approved-1-no-nc.toml")
      (files_of (press env (char b'a') on_proposal).0.disk.approved)
    ≡ some (record { body = proposal.toml_body; modified = 1 })
unfolding press with_approval approve normal_key lookup insert text_eq pending_accept_current
run_approved = refl

run_pending_cells :
    pending_cells proposal
    ≡ (codes "1m", plain) ∷ (codes "no-nc", plain) ∷ (codes "block", green) ∷ ([], plain) ∷ []
unfolding show_nat starts_with
run_pending_cells = refl
