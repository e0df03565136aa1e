-- ===== src/Rtc/Sdp/Lines.antt =====
-- Reading the text of xrtc_server/src/pc/session_description.cpp line by line, as its receiver does.
use dcj_rtc.Prelude.{
  ℕ, Bool, true, ◌≡◌, refl, sym, ap, ◌∙◌, Bytes, List, [], ◌∷◌, ◌++◌, append_assoc, ◌==◌, ◌||◌,
  ◌&&◌, not, if◌then◌else◌, arith,
}
use dcj_rtc.Rtc.Sdp.Text.{line}

-- One byte in front of the first line.
abbrev pub add_byte : ℕ → List Bytes → List Bytes
add_byte c [] = (c ∷ []) ∷ []
add_byte c (l ∷ ls) = (c ∷ l) ∷ ls

abbrev pub breaks : ℕ → Bool
breaks c = c == 10 || c == 13

-- RFC 4566: a line ends with CR LF, and a reader should take LF alone as well.
unfoldable pub read_lines : Bytes → List Bytes
read_lines [] = []
read_lines (c ∷ cs) =
    let rest = read_lines cs in
    if c == 10 then [] ∷ rest else if c == 13 then rest else add_byte c rest

-- A text that stays on its line.
unfoldable pub is_clean : Bytes → Bool
is_clean [] = true
is_clean (c ∷ cs) = not (breaks c) && is_clean cs

abbrev add_bytes : Bytes → List Bytes → List Bytes
add_bytes [] ls = ls
add_bytes (c ∷ cs) ls = add_byte c (add_bytes cs ls)

add_bytes-cons : (t l : Bytes) (ls : List Bytes) → add_bytes t (l ∷ ls) ≡ (t ++ l) ∷ ls
add_bytes-cons [] l ls = refl
add_bytes-cons (c ∷ t) l ls = ap (add_byte c) (add_bytes-cons t l ls)

read_lines-append :
    (t rest : Bytes) → is_clean t ≡ true → read_lines (t ++ rest) ≡ add_bytes t (read_lines rest)
unfolding read_lines is_clean
read_lines-append [] rest h = refl
read_lines-append (c ∷ t) rest h = ground (arith, read_lines-append t rest)

-- The text stands for whole lines, whatever comes behind it.
abbrev pub Reads : Bytes → List Bytes → Type 0
Reads text ls = (rest : Bytes) → read_lines (text ++ rest) ≡ ls ++ read_lines rest

pub Reads-append :
    (s t : Bytes) (ls ms : List Bytes) → Reads s ls → Reads t ms → Reads (s ++ t) (ls ++ ms)
Reads-append s t ls ms r r' rest =
    ap read_lines (append_assoc s t rest)
    ∙ (r (t ++ rest) ∙ (ap (λ xs. ls ++ xs) (r' rest) ∙ sym (append_assoc ls ms (read_lines rest))))

-- The parts of a line.
abbrev pub concat : List Bytes → Bytes
concat [] = []
concat (part ∷ parts) = part ++ concat parts

abbrev pub AllClean : List Bytes → Type 0
AllClean [] = Unit {0}
AllClean (part ∷ parts) = (is_clean part ≡ true) × AllClean parts

pub Reads-line : (parts : List Bytes) → AllClean parts → Reads (line parts) (concat parts ∷ [])
unfolding read_lines
Reads-line [] h rest = refl
Reads-line (part ∷ parts) (h, hs) rest =
    ap read_lines (append_assoc part (line parts) rest)
    ∙ (read_lines-append part (line parts ++ rest) h
        ∙ (ap (add_bytes part) (Reads-line parts hs rest)
            ∙ add_bytes-cons part (concat parts) (read_lines rest)))
