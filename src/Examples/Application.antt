-- ===== src/Examples/Application.antt =====
-- The theorem on the process in read-only mode, started with the small libraries.
use aggregate_concept_transf.Common.{[], ◌≡◌, refl, ap, true}
use aggregate_concept_transf.Effects.{ok}
use aggregate_concept_transf.Effects.Gives.{>>=-run}
use aggregate_concept_transf.Concept.Service.{AggregateService}
use aggregate_concept_transf.Main.{Options, action}
use aggregate_concept_transf.Main.Start.Works.{action-Returns}
use aggregate_concept_transf.Main.Application.{Application, assemble, application}
use aggregate_concept_transf.Main.Application.ReadOnly.{Quiet, application-Quiet}
use aggregate_concept_transf.Examples.{world}
use aggregate_concept_transf.Examples.Start.{setup, options, setup-SessionsWork}
use aggregate_concept_transf.Examples.Routes.{libraries, libraries-Documented}

abbrev quiet_options : Options
quiet_options = record options { is_read_only = true }

made : (s : AggregateService) × ((action world setup quiet_options []).0 ≡ ok s)
made = action-Returns world setup quiet_options [] setup-SessionsWork refl (λ e. cc)

abbrev app : Application
app = assemble world setup libraries 4 quiet_options made.0

app-made : (application world setup libraries 4 quiet_options []).0 ≡ ok app
unfolding application
app-made = ap (λ t. t.0) (>>=-run (action world setup quiet_options) _ [] made.0 made.1)

application-Quiet_example : Quiet world setup libraries 4 quiet_options app
application-Quiet_example =
    application-Quiet world setup libraries 4 quiet_options [] app libraries-Documented refl
      app-made
