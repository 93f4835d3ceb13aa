-- ===== src/Analyzer/Reports/Valid.antt =====
-- internal/analyzer: what the sinks may rely on in a report.
use wormsign.Common.{
  ℕ, ◌≡◌, refl, ap, subst, ◌∙◌, String, Bool, true, false, Option, none, some, if◌then◌else◌,
  Bool-cases, ◌⊎◌, Option-cases, inl, inr, arith,
}
use wormsign.Common.Text.{trim_space}
use wormsign.Model.{
  Severity, warning, is_valid, FaultEvent, SuperEvent, DiagnosticBundle, TokenUsage, RcaReport,
  is_empty,
}
use wormsign.Analyzer.Reports.Source.{fault_event_id, original_severity, id_of, severity_of}
use wormsign.Analyzer.Reports.Response.{
  Floats, LlmResponse, Decoder, severity_named, is_valid_category, clamp, report_from,
  build_fallback_report, parse_llm_json, extract_json_from_code_fence, with_root_cause, attempt,
  parse_llm_response,
}

-- The report is about the bundle's event, keeps the bundle, and has a known category and severity.
abbrev pub IsFaithful : {F : Type 0} → DiagnosticBundle → RcaReport F → Type 0
IsFaithful bundle r =
    (r.fault_event_id ≡ fault_event_id bundle)
    × (r.diagnostic_bundle ≡ bundle)
    × (is_valid_category r.category ≡ true)
    × (is_valid r.severity ≡ true)

-- What a bundle is about, by its id and severity: its super-event if it has one, else its fault
-- event, and with neither no id and a warning.
pub data Subject (bundle : DiagnosticBundle) : String → Severity → Type 0 where
  super_event : (se : SuperEvent) → bundle.super_event ≡ some se → Subject bundle se.id se.severity
  fault_event :
      (fe : FaultEvent)
      → bundle.super_event ≡ none
      → bundle.fault_event ≡ some fe
      → Subject bundle fe.id fe.severity
  no_event : bundle.super_event ≡ none → bundle.fault_event ≡ none → Subject bundle "" warning

source-Subject :
    (bundle : DiagnosticBundle) → Subject bundle (fault_event_id bundle) (original_severity bundle)
unfolding fault_event_id original_severity
source-Subject bundle = go bundle.super_event bundle.fault_event refl refl
  where
    go :
        (se : Option SuperEvent) (fe : Option FaultEvent)
        → bundle.super_event ≡ se
        → bundle.fault_event ≡ fe
        → Subject bundle (id_of se fe) (severity_of se fe)
    go (some se) fe has _ = super_event se has
    go none (some fe) lacks has = fault_event fe lacks has
    go none none lacks none_too = no_event lacks none_too

-- The first of two attempts that succeeds, the second only if it is made, and else the last resort.
first_success :
    {R : Type 0} (P : R → Type 0) (a : Option R) (skip : Bool) (b : Option R) (last : R)
    → ((r : R) → a ≡ some r → P r)
    → ((r : R) → b ≡ some r → P r)
    → P last
    → P (elim a [ some r ↦ r | none ↦ if skip then last else elim b [ some r ↦ r | none ↦ last ] ])
first_success P (some r) skip b last ha hb hl = ha r refl
first_success P none true b last ha hb hl = hl
first_success P none false (some r) last ha hb hl = hb r refl
first_success P none false none last ha hb hl = hl

known_category :
    (c : String) → is_valid_category (if is_valid_category c then c else "unknown") ≡ true
unfolding is_valid_category
known_category c = elim (Bool-cases (is_valid_category c)) [
  | inl valid ↦ ap is_valid_category (ap (λ b. if b then c else "unknown") valid) ∙ valid
  | inr invalid ↦ ap is_valid_category (ap (λ b. if b then c else "unknown") invalid)
]

known_severity :
    (s t : Severity) → let u = if is_valid s then s else t in (is_valid u ≡ true) ⊎ (u ≡ t)
known_severity s t = elim (Bool-cases (is_valid s)) [
  | inl valid ↦ inl (rw valid valid)
  | inr invalid ↦ inr (rw invalid refl)
]

module _ (floats : Floats) where
  open floats use {F, lt, zero, one}

  -- The number is not below 0 and not above 1.
  abbrev pub IsFraction : F → Type 0
  IsFraction x = (lt x zero ≡ false) × (lt one x ≡ false)

  clamp-IsFraction : (x : F) → IsFraction (clamp floats x)
  unfolding clamp
  clamp-IsFraction x = elim (Bool-cases (lt x zero)) [
    | inl below ↦
        ground (arith, below, floats.lt_irrefl zero, floats.lt_irrefl one, floats.one_not_lt_zero)
    | inr above ↦ elim (Bool-cases (lt one x)) [
      | inl over ↦ ground (arith, above, over, floats.lt_irrefl one, floats.one_not_lt_zero)
      | inr within ↦ ground (arith, above, within)
    ]
  ]

  -- What a report for an answer promises.
  abbrev pub Promises : String → DiagnosticBundle → String → TokenUsage → RcaReport F → Type 0
  Promises raw bundle backend tokens r =
      ((original : Severity) × Subject bundle r.fault_event_id original
        × ((is_valid r.severity ≡ true) ⊎ (r.severity ≡ original)))
      × (r.diagnostic_bundle ≡ bundle)
      × (is_valid_category r.category ≡ true)
      × IsFraction r.confidence
      × (r.raw_analysis ≡ raw)
      × (r.analyzer_backend ≡ backend)
      × (r.tokens_used ≡ tokens)

  module _ (decoder : Decoder F) (raw : String) (bundle : DiagnosticBundle) (backend : String)
      (tokens : TokenUsage) (now : ℕ) where
    report_from-Promises :
        (r : LlmResponse F)
        → Promises raw bundle backend tokens
            (record (report_from floats r bundle backend tokens now) { raw_analysis = raw })
    unfolding report_from
    report_from-Promises r = (
      (
        original_severity bundle,
        source-Subject bundle,
        known_severity (severity_named r.severity) (original_severity bundle),
      ),
      refl,
      known_category r.category,
      clamp-IsFraction r.confidence,
      refl,
      refl,
      refl,
    )

    attempt-Promises :
        (text : String) (report : RcaReport F)
        → attempt floats decoder raw text bundle backend tokens now ≡ some report
        → Promises raw bundle backend tokens report
    unfolding parse_llm_json
    attempt-Promises text report h =
        elim (Option-cases (with_root_cause floats (decoder.unmarshal text))) [
          | inl nothing ↦ ground (arith, nothing, h)
          | inr (r, found) ↦
              let same : record (report_from floats r bundle backend tokens now) {
                raw_analysis = raw;
              }
                  ≡ report =
                ground (arith, found, h) in
              subst (Promises raw bundle backend tokens) same (report_from-Promises r)
        ]

    fallback-Promises :
        Promises raw bundle backend tokens
          (build_fallback_report floats raw bundle backend tokens now)
    unfolding build_fallback_report is_valid_category
    fallback-Promises = (
      (original_severity bundle, source-Subject bundle, inr refl),
      refl,
      refl,
      (floats.lt_irrefl zero, floats.one_not_lt_zero),
      refl,
      refl,
      refl,
    )

    -- Whatever a language model answers, `ParseLLMResponse` makes a report with the id of the bundle's
    -- super-event, if there is one, else of its fault event, else with no id. It keeps the bundle, has
    -- one of the known categories, a severity that is valid or that of the same event, a confidence
    -- between 0 and 1, the answer as it came, the backend and the tokens.
    pub parse_llm_response-Promises :
        Promises raw bundle backend tokens
          (parse_llm_response floats decoder raw bundle backend tokens now)
    unfolding parse_llm_response
    parse_llm_response-Promises =
        let trimmed = trim_space raw in
        let extracted = extract_json_from_code_fence floats decoder trimmed in
        first_success (Promises raw bundle backend tokens)
          (attempt floats decoder raw trimmed bundle backend tokens now) (is_empty extracted)
          (attempt floats decoder raw extracted bundle backend tokens now)
          (build_fallback_report floats raw bundle backend tokens now) (attempt-Promises trimmed)
          (attempt-Promises extracted) fallback-Promises
