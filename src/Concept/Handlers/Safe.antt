-- ===== src/Concept/Handlers/Safe.antt =====
-- A request for a concept changes nothing (GetHandler of concept/handlers.go).
use aggregate_concept_transf.Common.{[]}
use aggregate_concept_transf.Text.{Str}
use aggregate_concept_transf.Effects.{Log}
use aggregate_concept_transf.World.{World}
use aggregate_concept_transf.Concept.Service.{AggregateService, with_deadline}
use aggregate_concept_transf.Concept.Gather.{get_concorded_concept}
use aggregate_concept_transf.Concept.Gather.Calls.{OnlyCalls, IsConceptRead}
use aggregate_concept_transf.Concept.Gather.Quiet.{get_concorded-IsQuiet}
use aggregate_concept_transf.Concept.Handlers.{requested_key, handler_concept, get_handler}

module _ {R : Type 0} (w : World R) (s : AggregateService) where
  -- The request for a concept makes only calls that read: GET requests for concordances to the
  -- concordances' address, and reads of objects and of their metadata in the buckets of the two
  -- stores, also where it ends in an error or passes its deadline.
  pub get_handler-OnlyReads :
      (uuid publication : Str) (log : Log)
      → OnlyCalls (IsConceptRead w s) log (get_handler w s uuid publication log).1
  unfolding get_handler handler_concept get_concorded_concept with_deadline
  get_handler-OnlyReads uuid publication log =
      get_concorded-IsQuiet w s (requested_key uuid publication) [] log
