-- ===== src/Proxy/Supervisor/Text.antt =====
-- How the parser of the configuration reads the text that the supervisor prints.
use awg_easy_rs.Prelude.{ℕ, ◌≡◌, refl, ◌∙◌, ap, List, [], ◌∷◌, ◌++◌, All, true, false, codes}
use awg_easy_rs.Prelude.Results.{Result, ok, ◌>>=◌, bind_ext}
use awg_easy_rs.Proxy.Config.{
  Key, key_jc, key_jmin, key_jmax, key_s1, key_s2, key_s3, key_s4, key_h1, key_h2, key_h3, key_h4,
  ConfigError, Draft, set_value, take_entry, take_config_lines, starts_with_bracket, set_entry,
  find_key,
}
use awg_easy_rs.Prelude.Numerals.Laws.{All-append}
use awg_easy_rs.Proxy.Config.Text.{
  IsGraphic, trim_graphic, graphic_bytes-IsGraphic, lines_from_line,
}
use awg_easy_rs.Proxy.Responder.Sip.Lines.{lines_from, trim, trim_front, white_len, begins}
use awg_easy_rs.Proxy.Responder.Detect.{to_ascii_lowercase, starts_with_ignore_case}
use awg_easy_rs.Proxy.Responder.Sip.Request.{eq_ignore_ascii_case}
use awg_easy_rs.Prelude.Strings.{same_text, split_once}
use awg_easy_rs.Proxy.Supervisor.{entry_lines}

-- The parser takes one printed line.
entry_step :
    (text rest : List ℕ) (d : Draft)
    → All IsGraphic text
    → starts_with_bracket text ≡ false
    → take_config_lines true (lines_from [] (text ++ (0x0A ∷ rest))) d
      ≡ (take_entry text d >>= take_config_lines true (lines_from [] rest))
unfolding take_config_lines
entry_step text rest d g h =
    rw (lines_from_line [] text rest g, take_config_lines, trim_graphic text g, h)
      (ap (λ t. take_entry t d >>= take_config_lines true (lines_from [] rest))
        (trim_graphic text g))

-- The text of a key with its equals sign.
abbrev pub key_text : Key → List ℕ
key_text key_jc = codes "Jc="
key_text key_jmin = codes "Jmin="
key_text key_jmax = codes "Jmax="
key_text key_s1 = codes "S1="
key_text key_s2 = codes "S2="
key_text key_s3 = codes "S3="
key_text key_s4 = codes "S4="
key_text key_h1 = codes "H1="
key_text key_h2 = codes "H2="
key_text key_h3 = codes "H3="
key_text key_h4 = codes "H4="

key_text-no_bracket : (k : Key) (v : List ℕ) → starts_with_bracket (key_text k ++ v) ≡ false
unfolding starts_with_bracket
key_text-no_bracket key_jc v = refl
key_text-no_bracket key_jmin v = refl
key_text-no_bracket key_jmax v = refl
key_text-no_bracket key_s1 v = refl
key_text-no_bracket key_s2 v = refl
key_text-no_bracket key_s3 v = refl
key_text-no_bracket key_s4 v = refl
key_text-no_bracket key_h1 v = refl
key_text-no_bracket key_h2 v = refl
key_text-no_bracket key_h3 v = refl
key_text-no_bracket key_h4 v = refl

key_text-IsGraphic : (k : Key) → All IsGraphic (key_text k)
key_text-IsGraphic key_jc = graphic_bytes-IsGraphic (key_text key_jc) refl
key_text-IsGraphic key_jmin = graphic_bytes-IsGraphic (key_text key_jmin) refl
key_text-IsGraphic key_jmax = graphic_bytes-IsGraphic (key_text key_jmax) refl
key_text-IsGraphic key_s1 = graphic_bytes-IsGraphic (key_text key_s1) refl
key_text-IsGraphic key_s2 = graphic_bytes-IsGraphic (key_text key_s2) refl
key_text-IsGraphic key_s3 = graphic_bytes-IsGraphic (key_text key_s3) refl
key_text-IsGraphic key_s4 = graphic_bytes-IsGraphic (key_text key_s4) refl
key_text-IsGraphic key_h1 = graphic_bytes-IsGraphic (key_text key_h1) refl
key_text-IsGraphic key_h2 = graphic_bytes-IsGraphic (key_text key_h2) refl
key_text-IsGraphic key_h3 = graphic_bytes-IsGraphic (key_text key_h3) refl
key_text-IsGraphic key_h4 = graphic_bytes-IsGraphic (key_text key_h4) refl

key_text-take_entry :
    (k : Key) (v : List ℕ) (d : Draft) → take_entry (key_text k ++ v) d ≡ set_value k (trim v) d
unfolding take_entry set_entry find_key split_once same_text trim trim_front white_len begins
    to_ascii_lowercase
key_text-take_entry key_jc v d = refl
key_text-take_entry key_jmin v d = refl
key_text-take_entry key_jmax v d = refl
key_text-take_entry key_s1 v d = refl
key_text-take_entry key_s2 v d = refl
key_text-take_entry key_s3 v d = refl
key_text-take_entry key_s4 v d = refl
key_text-take_entry key_h1 v d = refl
key_text-take_entry key_h2 v d = refl
key_text-take_entry key_h3 v d = refl
key_text-take_entry key_h4 v d = refl

abbrev pub printed : List (Key × List ℕ) → List (List ℕ × List ℕ)
printed [] = []
printed ((k, v) ∷ entries) = (key_text k, v) ∷ printed entries

unfoldable pub set_all : List (Key × List ℕ) → Draft → Result ConfigError Draft
set_all [] d = ok d
set_all ((k, v) ∷ entries) d = set_value k v d >>= set_all entries

abbrev pub AreGraphic : List (Key × List ℕ) → Type 0
AreGraphic [] = Unit
AreGraphic ((k, v) ∷ entries) = All IsGraphic v × AreGraphic entries

-- The loop over the printed lines sets the values one after the other.
pub take_config_lines-printed :
    (entries : List (Key × List ℕ)) (d : Draft)
    → AreGraphic entries
    → take_config_lines true (lines_from [] (entry_lines (printed entries))) d ≡ set_all entries d
unfolding entry_lines set_all take_config_lines lines_from
take_config_lines-printed [] d g = refl
take_config_lines-printed ((k, v) ∷ entries) d (g, gs) =
    entry_step (key_text k ++ v) (entry_lines (printed entries)) d
      (All-append IsGraphic (key_text k) v (key_text-IsGraphic k) g) (key_text-no_bracket k v)
    ∙ rw (key_text-take_entry k v d, trim_graphic v g)
        (bind_ext (set_value k v d) (λ d'. take_config_lines-printed entries d' gs))

-- The line of the section's name.
pub take_config_lines-header :
    (rest : List ℕ) (d : Draft)
    → take_config_lines false (lines_from [] (codes "[Interface]" ++ (0x0A ∷ rest))) d
      ≡ take_config_lines true (lines_from [] rest) d
unfolding take_config_lines lines_from starts_with_bracket trim trim_front white_len begins
    eq_ignore_ascii_case starts_with_ignore_case to_ascii_lowercase
take_config_lines-header rest d = refl
