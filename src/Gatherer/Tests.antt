-- ===== src/Gatherer/Tests.antt =====
-- Runs of the gatherer of events, and the theorem about it at an example.
use wormsign.Common.{◌≡◌, refl, inl, inr, false, [], ◌∷◌, none, some}
use wormsign.Common.Int.{pos}
use wormsign.Common.Text.{digits, decimal, decimal_int}
use wormsign.Model.{ResourceRef, DiagnosticSection}
use wormsign.Analyzer.Rules.Patterns.{not_blank, word_char}
use wormsign.Analyzer.Rules.Signals.{no_signals}
use wormsign.Analyzer.Rules.Extraction.{extract_from}
use wormsign.Gatherer.PodEvents.{Event, count_suffix, event_line, ended, content_of, gather}
use wormsign.Gatherer.Lines.{not_newline, all_chars-AllChars}
use wormsign.Gatherer.RoundTrip.{IsPlain, signal_of, extract_from-gather}

abbrev back_off : Event
back_off = record {
  last_timestamp = some "2026-01-02T03:04:05Z";
  event_time = none;
  type = "Warning";
  reason = "BackOff";
  message = "restarting failed container";
  count = pos 12;
}

abbrev pulled : Event
pulled = record {
  last_timestamp = none;
  event_time = none;
  type = "Normal";
  reason = "Pulled";
  message = "image is present";
  count = pos 1;
}

abbrev web : ResourceRef
web = record { kind = "Pod"; namespace = "shop"; name = "web-0"; uid = "7f" }

back_off_line :
    event_line back_off
    ≡ "  2026-01-02T03:04:05Z  Warning  BackOff: restarting failed container (x12)"
unfolding event_line count_suffix decimal_int decimal digits
back_off_line = refl

content_of_two :
    content_of web (back_off ∷ pulled ∷ [])
    ≡ "Events for Pod shop/web-0:\n  2026-01-02T03:04:05Z  Warning  BackOff: restarting failed container (x12)\n  0001-01-01T00:00:00Z  Normal  Pulled: image is present\n"
unfolding content_of event_line count_suffix decimal_int decimal digits ended
content_of_two = refl

back_off-IsPlain : IsPlain back_off
back_off-IsPlain = record {
  time_some = refl;
  time_chars = all_chars-AllChars not_blank "2026-01-02T03:04:05Z" refl;
  type_known = inl refl;
  reason_some = refl;
  reason_chars = all_chars-AllChars word_char "BackOff" refl;
  message_some = refl;
  message_start = refl;
  message_chars = all_chars-AllChars not_newline "restarting failed container" refl;
}

pulled-IsPlain : IsPlain pulled
pulled-IsPlain = record {
  time_some = refl;
  time_chars = all_chars-AllChars not_blank "0001-01-01T00:00:00Z" refl;
  type_known = inr refl;
  reason_some = refl;
  reason_chars = all_chars-AllChars word_char "Pulled" refl;
  message_some = refl;
  message_start = refl;
  message_chars = all_chars-AllChars not_newline "image is present" refl;
}

-- The round trip of two events.
extract_from-gather_example :
    (section : DiagnosticSection) × (gather none web (some (back_off ∷ pulled ∷ [])) ≡ some section)
    × (extract_from (λ pattern line. false) no_signals (section ∷ [])
        ≡ record no_signals { event_messages = signal_of back_off ∷ signal_of pulled ∷ [] })
extract_from-gather_example =
    extract_from-gather (λ pattern line. false) web (back_off ∷ pulled ∷ []) no_signals
      (all_chars-AllChars not_newline "shop" refl) (all_chars-AllChars not_newline "web-0" refl)
      (back_off-IsPlain, (pulled-IsPlain, tt))
