-- ===== src/Eval/Dataset.antt =====
-- pkg/ai/eval/eval.go, dataset_identity.go and dataset_json.go. Reading a file and json.Unmarshal are
-- parameters, and the copies of samples are the identity on values.
use ash_jazz_ai_agent.Prelude.{ℕ, suc, String, List, [], ◌∷◌, Option, none, some, if◌then◌else◌}
use ash_jazz_ai_agent.Prelude.Decimal.{decimal}
use ash_jazz_ai_agent.Prelude.Int.{ℤ}
use ash_jazz_ai_agent.Prelude.Text.{is_empty, is_blank, trim_space}
use ash_jazz_ai_agent.Errors.{Error, errorf, wrapf, Result, ok, err}
use ash_jazz_ai_agent.Json.{Map}
use ash_jazz_ai_agent.Obs.Identity.{CorrelationIdentity}

pub record Sample : Type 0 where
  pub id : String
  pub query : String
  pub ground_truth : String
  pub relevant_ctx : List String
  pub difficulty : String
  pub category : String
  pub meta : Map

pub record Prediction : Type 0 where
  pub answer : String
  pub context : List String
  pub tokens_used : ℤ
  pub trace_identity : CorrelationIdentity

pub record DatasetIdentity : Type 0 where
  pub name : String
  pub version : String

abbrev pub normalize_dataset_identity : DatasetIdentity → DatasetIdentity
normalize_dataset_identity identity = record {
  name = trim_space identity.name;
  version = trim_space identity.version;
}

unfoldable pub validate_dataset_identity : DatasetIdentity → Option Error
validate_dataset_identity identity =
    let normalized = normalize_dataset_identity identity in
    if is_empty normalized.name
    then some (errorf "dataset_identity dataset_name is required" [])
    else if is_empty normalized.version
    then some (errorf "dataset_identity dataset_version is required" [])
    else none

-- The loop of `validateSamples`, at one index.
unfoldable pub validate_samples_from : ℕ → List Sample → Option Error
unfolding decimal
validate_samples_from index [] = none
validate_samples_from index (sample ∷ samples) =
    let later = validate_samples_from (suc index) samples in
    if is_blank sample.id
    then some (errorf "json dataset sample id is required at index %d" (decimal index ∷ []))
    else later

unfoldable pub validate_samples : List Sample → Option Error
unfolding validate_samples_from
validate_samples [] = some (errorf "json dataset samples are required" [])
validate_samples (sample ∷ samples) = validate_samples_from 0 (sample ∷ samples)

-- A dataset's path, with the file's text or the error of reading it; the context's error before and
-- after the file is read.
module _ (read_file : String → Result String) (unmarshal : String → Result (List Sample))
    (before after : Option Error) where
  abbrev validated : List Sample → Option Error → Result (List Sample)
  validated samples (some e) = err e
  validated samples none = ok samples

  abbrev parsed : String → Result (List Sample) → Result (List Sample)
  parsed path (err e) = err (wrapf "parse json dataset %q: %w" (path ∷ []) e)
  parsed path (ok samples) = validated samples (validate_samples samples)

  abbrev unless_ended : String → String → Option Error → Result (List Sample)
  unless_ended path content (some e) = err e
  unless_ended path content none = parsed path (unmarshal content)

  abbrev read : String → Result String → Result (List Sample)
  read path (err e) = err (wrapf "read json dataset %q: %w" (path ∷ []) e)
  read path (ok content) =
      if is_blank content
      then err (errorf "json dataset %q is empty" (path ∷ []))
      else unless_ended path content after

  abbrev load_path : Option String → Result (List Sample)
  load_path none = err (errorf "json dataset path is required" [])
  load_path (some path) =
      if is_blank path
      then err (errorf "json dataset path is required" [])
      else read path (read_file path)

  abbrev load_unless : Option Error → Option String → Result (List Sample)
  load_unless (some e) path = err e
  load_unless none path = load_path path

  -- `Load`, of a dataset that may be nil.
  unfoldable pub load : Option String → Result (List Sample)
  unfolding validate_samples
  load path = load_unless before path
