-- ===== src/Obs/DualPlaneLink.antt =====
-- pkg/ai/obs/dual_plane_link.go: the links between the infrastructure plane, the AI plane and the
-- evaluation.
pub mod Tests
use ash_jazz_ai_agent.Prelude.{
  String, Bool, true, false, ◌&&◌, not, [], ◌∷◌, List, Option, none, some, ◌≡◌, if◌then◌else◌,
  arith,
}
use ash_jazz_ai_agent.Prelude.Text.{is_blank}
use ash_jazz_ai_agent.Errors.{Error, errorf, Result, ok, err}
use ash_jazz_ai_agent.Obs.Identity.{CorrelationIdentity}

pub record DualPlaneLinkInput : Type 0 where
  pub identity : CorrelationIdentity
  pub ai_observation_id : String
  pub eval_sample_id : String

pub record HttpParentLink : Type 0 where
  pub request_id : String
  pub service_trace_id : String
  pub span_id : String

pub record AiChildLink : Type 0 where
  pub request_id : String
  pub service_trace_id : String
  pub parent_span_id : String
  pub ai_trace_id : String
  pub observation_id : String

pub record EvalLink : Type 0 where
  pub eval_run_id : String
  pub sample_id : String
  pub request_id : String
  pub ai_trace_id : String
  pub service_trace_id : String
  pub parent_span_id : String

pub record DualPlaneLinks : Type 0 where
  pub http_parent : HttpParentLink
  pub ai_child : AiChildLink
  pub eval_link : EvalLink

abbrev required : String → Option Error
required format = some (errorf format [])

unfoldable pub validate_dual_plane_link_input : DualPlaneLinkInput → Option Error
validate_dual_plane_link_input input =
    if is_blank input.identity.request_id
    then required "dual plane link request_id is required"
    else if is_blank input.identity.service_trace_id
    then required "dual plane link service_trace_id is required"
    else if is_blank input.identity.span_id
    then required "dual plane link span_id is required"
    else if is_blank input.identity.ai_trace_id
    then required "dual plane link ai_trace_id is required"
    else if is_blank input.ai_observation_id
    then required "dual plane link ai_observation_id is required"
    else if is_blank input.identity.eval_run_id
    then required "dual plane link eval_run_id is required"
    else if is_blank input.eval_sample_id
    then required "dual plane link eval_sample_id is required"
    else none

abbrev pub links_of : DualPlaneLinkInput → DualPlaneLinks
links_of input = record {
  http_parent = record {
    request_id = input.identity.request_id;
    service_trace_id = input.identity.service_trace_id;
    span_id = input.identity.span_id;
  };
  ai_child = record {
    request_id = input.identity.request_id;
    service_trace_id = input.identity.service_trace_id;
    parent_span_id = input.identity.span_id;
    ai_trace_id = input.identity.ai_trace_id;
    observation_id = input.ai_observation_id;
  };
  eval_link = record {
    eval_run_id = input.identity.eval_run_id;
    sample_id = input.eval_sample_id;
    request_id = input.identity.request_id;
    ai_trace_id = input.identity.ai_trace_id;
    service_trace_id = input.identity.service_trace_id;
    parent_span_id = input.identity.span_id;
  };
}

abbrev built : DualPlaneLinkInput → Option Error → Result DualPlaneLinks
built input (some e) = err e
built input none = ok (links_of input)

unfoldable pub build_dual_plane_links : DualPlaneLinkInput → Result DualPlaneLinks
unfolding validate_dual_plane_link_input
build_dual_plane_links input = built input (validate_dual_plane_link_input input)

-- The links of a request lead back to one another: none of their identifiers is blank, and the planes
-- name the same request, service trace, span and AI trace.
pub build_dual_plane_links-agree :
    (input : DualPlaneLinkInput) (links : DualPlaneLinks)
    → build_dual_plane_links input ≡ ok links
    → let parent = links.http_parent in
      let child = links.ai_child in
      let evidence = links.eval_link in
      (child.request_id ≡ parent.request_id)
      × (evidence.request_id ≡ parent.request_id)
      × (child.service_trace_id ≡ parent.service_trace_id)
      × (evidence.service_trace_id ≡ parent.service_trace_id)
      × (child.parent_span_id ≡ parent.span_id)
      × (evidence.parent_span_id ≡ parent.span_id)
      × (evidence.ai_trace_id ≡ child.ai_trace_id)
      × (is_blank parent.request_id ≡ false)
      × (is_blank parent.service_trace_id ≡ false)
      × (is_blank parent.span_id ≡ false)
      × (is_blank child.ai_trace_id ≡ false)
      × (is_blank child.observation_id ≡ false)
      × (is_blank evidence.eval_run_id ≡ false)
      × (is_blank evidence.sample_id ≡ false)
unfolding build_dual_plane_links
build_dual_plane_links-agree input links made = ground (arith, made)
