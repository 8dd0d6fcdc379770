-- ===== src/Language.antt =====
-- app/language: the language of a message, and the translation of a reply.
--
-- The detector of the package langdetect is a parameter, `none` if it raises, and so is the model's
-- reply to the request to translate, `none` if the request or its prompt failed. Logs are left out.
use makkays_chatbot.Prelude.{
  ℕ, String, List, [], ◌∷◌, Bool, ◌&&◌, Option, none, some, any, keep, contains, length, codes, leb,
  ltb, eqb, strip, ◌==◌, if◌then◌else◌,
}

-- SUPPORTED_LANGUAGES
abbrev pub supported_languages : List String
supported_languages = "en" ∷ "ur" ∷ "ar" ∷ []

-- _MIN_DETECTION_LENGTH
abbrev pub min_detection_length : ℕ
min_detection_length = 10

-- _ARABIC_BLOCK_PATTERN
abbrev in_arabic_block : ℕ → Bool
in_arabic_block c = leb 1536 c && leb c 1791

-- _URDU_HINT_CHARS
abbrev urdu_hint_chars : List ℕ
urdu_hint_chars = 1657 ∷ 1672 ∷ 1681 ∷ 1722 ∷ 1746 ∷ 1711 ∷ 1705 ∷ 1670 ∷ 1740 ∷ 1662 ∷ 1688 ∷ []

abbrev script_of : List ℕ → Option String
script_of [] = none
script_of (c ∷ cs) = some (if any (λ d. any (eqb d) urdu_hint_chars) (c ∷ cs) then "ur" else "ar")

-- _script_heuristic
unfoldable pub script_heuristic : String → Option String
script_heuristic content = script_of (keep in_arabic_block (codes content))

abbrev mapped : String → Option String → String
mapped current none = current
mapped current (some detected) = if contains supported_languages detected then detected else "en"

abbrev or_detected : String → Option String → Option String → String
or_detected current detected (some heuristic) = heuristic
or_detected current detected none = mapped current detected

-- LanguageDetectionService.detect
unfoldable pub detect : (String → Option String) → String → String → String
unfolding script_heuristic strip
detect langdetect content current =
    let stripped = strip content in
    let detected = or_detected current (langdetect stripped) (script_heuristic stripped) in
    if ltb (length (codes stripped)) min_detection_length then current else detected

abbrev or_original : String → Option String → String
or_original content none = content
or_original content (some reply) = let new = strip reply in if new == "" then content else new

-- TranslationService.translate, with the count of the request: its target and its success.
unfoldable pub translate : (String → String → Option String) → String → String → String
unfolding strip
translate chat content target =
    let translated = or_original content (chat target content) in
    if target == "en" then content else translated

-- _maybe_translate_response of app/orchestrator/orchestrator.py
unfoldable pub maybe_translate_response :
    (String → String → Option String) → String → String → Bool → String
unfolding translate
maybe_translate_response chat content language enabled =
    let translated = translate chat content language in
    if enabled && contains ("ur" ∷ "ar" ∷ []) language then translated else content
