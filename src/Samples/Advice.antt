-- ===== src/Samples/Advice.antt =====
-- The advisor on concrete incidents.
use vector_guard.Prelude.{
  [], arith, codes, insert, lookup, refl, show_nat, some, sym, text_eq, true, ℕ, ◌-◌, ◌∙◌, ◌≡◌, ◌≢◌,
  ◌≤◌,
}
use vector_guard.Event.{Action, NormalizedEvent}
use vector_guard.Config.{AiAdvisorConfig, default_advisor}
use vector_guard.Advisor.{Advisor, Outside, admit, analyze, key_eq, new, pattern_key, secs}
use vector_guard.Advisor.Counting.{Counted, analyze-Counted}
use vector_guard.Advisor.Firing.{Stages, cooldown_respected, here}
use vector_guard.Samples.{event_of, to_port, two_rules}

abbrev incident : NormalizedEvent Unit
incident = event_of (codes "bash") (to_port 4444) Action.alerted

-- Fires at the first incident, and a second later again.
abbrev eager : AiAdvisorConfig
eager = record default_advisor {
  enabled = true;
  api_key_env = codes "KEY";
  trigger_threshold = 1;
  cooldown_seconds = 1;
}

abbrev idle : Advisor Unit
idle = new eager (codes "/rules")

-- The provider answers, and every rule can be staged.
abbrev pub outside_at : ℕ → Outside Unit
outside_at now = record {
  now = now;
  api_key = some (codes "secret");
  ask = λ events. some (codes "toml");
  parse = λ toml. some two_rules;
  stage = λ rule. true;
}

nonempty : two_rules.rules ≢ []
nonempty e = cc

counted : Counted idle.window idle.counts
unfolding lookup
counted key = refl

analyze-Counted_example :
    Counted
      (analyze (outside_at 0) idle incident).0.window
      (analyze (outside_at 0) idle incident).0.counts
analyze-Counted_example = analyze-Counted (outside_at 0) idle incident (omega arith) counted

run_first : (analyze (outside_at 0) idle incident).1 ≡ two_rules.rules
unfolding analyze pattern_key admit lookup insert key_eq text_eq show_nat
run_first = refl

stages_first : Stages (outside_at 0) idle incident
stages_first e = nonempty (sym run_first ∙ e)

abbrev after : Advisor Unit
after = (analyze (outside_at 0) idle incident).0

run_again : (analyze (outside_at (secs 5)) after incident).1 ≡ two_rules.rules
unfolding analyze pattern_key admit lookup insert key_eq text_eq show_nat
run_again = refl

stages_again : Stages (outside_at (secs 5)) after incident
stages_again e = nonempty (sym run_again ∙ e)

cooldown_respected_example : secs after.cfg.cooldown_seconds ≤ secs 5 - 0
cooldown_respected_example =
    cooldown_respected (outside_at 0) (outside_at (secs 5)) idle after incident incident
      stages_first here stages_again refl
