-- ===== src/Gatherer/RoundTrip.antt =====
-- What the gatherer prints of the events of a pod is what the analyzer reads: internal/gatherer/pod_events.go
-- and internal/analyzer/rules.go.
use Prim.Native.String.{[] as no_char, ◌∷◌ as ◌then_char◌}
use wormsign.Common.{
  ℕ, ◌≡◌, refl, ap, ◌∙◌, ◌⊎◌, inl, inr, String, Bool, true, false, List, [], ◌∷◌, ◌++◌, none, some,
  map, All, if◌then◌else◌, arith,
}
use wormsign.Common.Text.{append, strip_prefix}
use wormsign.Model.{ResourceRef, DiagnosticSection, is_nil}
use wormsign.Analyzer.Rules.Patterns.{
  Piece, literal, some_of, captured, choice, rest_of_line, is_nothing, repeat_class, blank,
  not_blank, word_char, match_here, first_choice,
}
use wormsign.Analyzer.Rules.Signals.{EventSignal, DiagnosticSignals}
use wormsign.Analyzer.Rules.Sections.{event, event_signal, event_lines, parse_pod_events}
use wormsign.Analyzer.Rules.Extraction.{parse_section, extract_from}
use wormsign.Gatherer.PodEvents.{
  Event, first_time, count_suffix, event_line, header_line, content_of, gather,
}
use wormsign.Gatherer.Newlines.{
  IsOneLine, append-IsOneLine, count_suffix-IsOneLine, not_blank-IsOneLine, word_char-IsOneLine,
  header_line-IsOneLine,
}
use wormsign.Gatherer.Lines.{
  all_chars-AllChars, AllChars, EndsClass, not_newline, append_nil, repeat_class_exact, split-ended,
  EndsClass-append, EndsClass-append_first,
}

-- An event whose parts have the form that the pattern looks for.
pub record IsPlain (e : Event) : Type 0 where
  pub time_some : is_nothing (first_time e.last_timestamp e.event_time) ≡ false
  pub time_chars : AllChars not_blank (first_time e.last_timestamp e.event_time)
  pub type_known : (e.type ≡ "Warning") ⊎ (e.type ≡ "Normal")
  pub reason_some : is_nothing e.reason ≡ false
  pub reason_chars : AllChars word_char e.reason
  pub message_some : is_nothing e.message ≡ false
  pub message_start : EndsClass blank e.message
  pub message_chars : AllChars not_newline e.message

-- The signal that an event is.
abbrev pub signal_of : Event → EventSignal
signal_of e = record {
  event_type = e.type;
  reason = e.reason;
  message = append e.message (count_suffix e.count);
}

word_char-blank : (c : ℕ) → word_char c ≡ true → blank c ≡ false
word_char-blank c h = ground arith

not_blank-blank : (c : ℕ) → not_blank c ≡ true → blank c ≡ false
not_blank-blank c h = ground arith

match-some_of :
    (class : ℕ → Bool) (ps : List Piece) (w rest : String) {cs : List String}
    → AllChars class w
    → EndsClass class rest
    → is_nothing w ≡ false
    → match_here ps rest ≡ some cs
    → match_here (some_of class ∷ ps) (append w rest) ≡ some cs
unfolding match_here
match-some_of class ps w rest all ends ne h =
    repeat_class_exact false class (match_here ps) "" w rest _ all ends ne h

match-captured :
    (class : ℕ → Bool) (ps : List Piece) (w rest : String) {cs : List String}
    → AllChars class w
    → EndsClass class rest
    → is_nothing w ≡ false
    → match_here ps rest ≡ some cs
    → match_here (captured class ∷ ps) (append w rest) ≡ some (w ∷ cs)
unfolding match_here
match-captured class ps w rest all ends ne h =
    repeat_class_exact true class (match_here ps) "" w rest _ all ends ne h

match_colon :
    (ps : List Piece) (rest : String)
    → match_here (literal ":" ∷ ps) (append ":" rest) ≡ match_here ps rest
unfolding match_here strip_prefix
match_colon ps rest = refl

match_rest : (rest : String) → match_here (rest_of_line ∷ []) rest ≡ some (rest ∷ [])
unfolding match_here
match_rest rest = refl

match_type :
    (type : String) (ps : List Piece) (rest : String) {cs : List String}
    → (type ≡ "Warning") ⊎ (type ≡ "Normal")
    → match_here ps rest ≡ some cs
    → match_here (choice ("Warning" ∷ "Normal" ∷ []) ∷ ps) (append type rest) ≡ some (type ∷ cs)
unfolding match_here first_choice strip_prefix
match_type type ps rest known h = elim known [ inl w ↦ rw w (rw h) | inr n ↦ rw n (rw h) ]

EndsClass-type :
    (type rest : String)
    → (type ≡ "Warning") ⊎ (type ≡ "Normal")
    → EndsClass blank (append type rest)
EndsClass-type type rest known = elim known [ inl w ↦ rw w refl | inr n ↦ rw n refl ]

abbrev captures_of_event : Event → List String
captures_of_event e = e.type ∷ e.reason ∷ append e.message (count_suffix e.count) ∷ []

match-event_line :
    (e : Event) → IsPlain e → match_here event (event_line e) ≡ some (captures_of_event e)
unfolding event_line
match-event_line e p = rw append_nil (
    match-some_of blank _ "  " _ (refl, (refl, tt))
      (EndsClass-append not_blank blank _ _ not_blank-blank p.time_some p.time_chars) refl
      (match-some_of not_blank _ _ _ p.time_chars refl p.time_some (
        match-some_of blank _ "  " _ (refl, (refl, tt)) (EndsClass-type e.type _ p.type_known) refl
          (match_type e.type _ _ p.type_known (
            match-some_of blank _ "  " _ (refl, (refl, tt))
              (EndsClass-append word_char blank _ _ word_char-blank p.reason_some p.reason_chars)
              refl
              (match-captured word_char _ e.reason _ p.reason_chars refl p.reason_some (
                match_colon _ _
                ∙ match-some_of blank _ " " _ (refl, tt)
                    (EndsClass-append_first blank e.message _ p.message_some p.message_start) refl
                    (match_rest _))))))))

type-IsOneLine : (type : String) → (type ≡ "Warning") ⊎ (type ≡ "Normal") → IsOneLine type
type-IsOneLine type known = elim known [
  | inl w ↦ rw w (all_chars-AllChars not_newline "Warning" refl)
  | inr n ↦ rw n (all_chars-AllChars not_newline "Normal" refl)
]

event_line-IsOneLine : (e : Event) → IsPlain e → IsOneLine (event_line e)
unfolding event_line
event_line-IsOneLine e p = rw append_nil (
  refl,
  (
    refl,
    append-IsOneLine _ _ (not_blank-IsOneLine _ p.time_chars) (
      refl,
      (
        refl,
        append-IsOneLine e.type _ (type-IsOneLine e.type p.type_known) (
          refl,
          (
            refl,
            append-IsOneLine e.reason _ (word_char-IsOneLine e.reason p.reason_chars) (
              refl,
              (refl, append-IsOneLine e.message _ p.message_chars (count_suffix-IsOneLine e.count)),
            ),
          ),
        ),
      ),
    ),
  ),
)

event_lines_found :
    (l : String) (ls : List String) (m : List String)
    → match_here event l ≡ some m
    → event_lines (l ∷ ls) ≡ event_signal m ∷ event_lines ls
unfolding event_lines
event_lines_found l ls m h = rw (event_lines, h)

-- A line that begins with no blank shows no event, and nor does an empty one.
event_lines_other :
    (l : String) (ls : List String) → EndsClass blank l → event_lines (l ∷ ls) ≡ event_lines ls
unfolding event_lines match_here repeat_class
event_lines_other no_char ls h = refl
event_lines_other (◌then_char◌ c l) ls h = rw (event_lines, h)

-- The events that lines of events show.
event_lines-map :
    (es : List Event)
    → All IsPlain es
    → event_lines (map event_line es ++ "" ∷ []) ≡ map signal_of es
unfolding event_lines
event_lines-map [] h = event_lines_other "" [] tt
event_lines-map (e ∷ es) (h, hs) =
    event_lines_found (event_line e) _ (captures_of_event e) (match-event_line e h)
    ∙ ap (◌∷◌ (signal_of e)) (event_lines-map es hs)

no_events : event_lines ("  (no events found)" ∷ "" ∷ []) ≡ []
unfolding event_lines match_here repeat_class first_choice strip_prefix
no_events = refl

-- The lines of the section, behind the first.
shown : List Event → List String
shown es = (if is_nil es then "  (no events found)" ∷ [] else []) ++ map event_line es

map-IsOneLine : (es : List Event) → All IsPlain es → All IsOneLine (map event_line es)
map-IsOneLine [] h = tt
map-IsOneLine (e ∷ es) (h, hs) = (event_line-IsOneLine e h, map-IsOneLine es hs)

no_events_line : IsOneLine "  (no events found)"
no_events_line = all_chars-AllChars not_newline "  (no events found)" refl

shown-IsOneLine : (es : List Event) → All IsPlain es → All IsOneLine (shown es)
unfolding shown
shown-IsOneLine [] h = (no_events_line, tt)
shown-IsOneLine (e ∷ es) h = map-IsOneLine (e ∷ es) h

event_lines-shown :
    (es : List Event) → All IsPlain es → event_lines (shown es ++ "" ∷ []) ≡ map signal_of es
unfolding shown
event_lines-shown [] h = no_events
event_lines-shown (e ∷ es) h = event_lines-map (e ∷ es) h

parse_pod_events-content_of :
    (ref : ResourceRef) (es : List Event) (s : DiagnosticSignals)
    → IsOneLine ref.namespace
    → IsOneLine ref.name
    → All IsPlain es
    → parse_pod_events (content_of ref es) s
      ≡ record s { event_messages = s.event_messages ++ map signal_of es }
unfolding parse_pod_events content_of shown
parse_pod_events-content_of ref es s space name h = rw (
  split-ended (header_line ref ∷ shown es)
      (header_line-IsOneLine ref space name, shown-IsOneLine es h),
  event_lines_other (header_line ref) (shown es ++ "" ∷ []) refl,
  event_lines-shown es h,
)

-- Without a redactor, for a pod and its events, each with a time, a type that is Warning or Normal, a
-- reason of word characters and a message of one line that begins with no blank, the gatherer gives a
-- section, from which the analyzer reads one signal per event, in their order, with the event's type and
-- reason, and its message with the count behind it.
pub extract_from-gather :
    (log_matches : String → String → Bool) (ref : ResourceRef) (es : List Event)
    (s : DiagnosticSignals)
    → IsOneLine ref.namespace
    → IsOneLine ref.name
    → All IsPlain es
    → (section : DiagnosticSection) × (gather none ref (some es) ≡ some section)
      × (extract_from log_matches s (section ∷ [])
          ≡ record s { event_messages = s.event_messages ++ map signal_of es })
unfolding gather extract_from parse_section
extract_from-gather log_matches ref es s space name h =
    (_, refl, parse_pod_events-content_of ref es s space name h)
