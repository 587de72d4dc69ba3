-- ===== src/Obs/DualPlaneLink/Tests.antt =====
-- The links of one request.
use ash_jazz_ai_agent.Prelude.{◌≡◌, refl}
use ash_jazz_ai_agent.Prelude.Text.{trim_space}
use ash_jazz_ai_agent.Errors.{ok}
use ash_jazz_ai_agent.Obs.DualPlaneLink.{
  DualPlaneLinkInput, DualPlaneLinks, links_of, build_dual_plane_links,
}

abbrev input : DualPlaneLinkInput
input = record {
  identity = record {
    request_id = "r1";
    service_trace_id = "s1";
    span_id = "p1";
    ai_trace_id = "a1";
    session_id = "";
    eval_run_id = "e1";
  };
  ai_observation_id = "o1";
  eval_sample_id = "m1";
}

abbrev links : DualPlaneLinks
links = links_of input

made : build_dual_plane_links input ≡ ok links
unfolding build_dual_plane_links trim_space
made = refl
