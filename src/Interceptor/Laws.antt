-- ===== src/Interceptor/Laws.antt =====
-- The proxy of cmd/interceptor/main.go, both ways.
use cel_admission_webhook.Common.{
  String, eq_refl, ◌<◌, ◌≡◌, refl, sym, ap, true, false, List, [], ◌∷◌, ◌++◌, length, All, some, ℕ,
  Bool,
}
use cel_admission_webhook.Common.Dict.{Dict, lookup, insert, lookup-insert}
use cel_admission_webhook.Interceptor.{
  native, custom, Request, Response, to_custom, to_native, piped, rewrite, modify_response,
  exchange,
}
use cel_admission_webhook.Interceptor.Replace.{Bytes, contains, replace_from, replace_all}
use cel_admission_webhook.Interceptor.Replace.RoundTrip.{replace_all_back, contains-replace_all}
use cel_admission_webhook.Interceptor.Scanner.{last_line, max_line, room}
use cel_admission_webhook.Interceptor.Scanner.Laws.{
  IsLine, LacksNewline, ended, lines-ended, lines-last, lines-long,
}
use cel_admission_webhook.Interceptor.Decimal.{itoa, value, value-itoa}
use mathlib.Core.List.{flat_map, append_assoc, append-nil}

-- A text that does not name the custom API is itself again after both replacements.
pub to_native-to_custom : (s : Bytes) → contains s custom ≡ false → to_native (to_custom s) ≡ s
to_native-to_custom s h = replace_all_back _ _ _ _ s refl h

-- So is a text that does not name the native API, the other way round.
pub to_custom-to_native : (s : Bytes) → contains s native ≡ false → to_custom (to_native s) ≡ s
to_custom-to_native s h = replace_all_back _ _ _ _ s refl h

flat_map-append :
    (f : Bytes → Bytes) (xs ys : List Bytes)
    → flat_map f (xs ++ ys) ≡ flat_map f xs ++ flat_map f ys
unfolding flat_map
flat_map-append f [] ys = refl
flat_map-append f (x ∷ xs) ys = simp (flat_map-append f xs ys, append_assoc)

piped-last_line :
    (most : ℕ) (l : Bytes)
    → IsLine most l
    → flat_map to_custom (last_line l) ≡ flat_map to_custom (l ∷ [])
unfolding last_line flat_map replace_all replace_from
piped-last_line most [] line = refl
piped-last_line most (c ∷ s) line = ap (λ k. flat_map to_custom (k ∷ [])) line.no_cr

-- The bug: the ends of the lines are lost, and so is everything from the first line on that does not
-- fit into the scanner's buffer. A body of lines of at most 65535 bytes is sent as its lines, each with
-- the names replaced, one right after the other; the last line, which has no end, may have 65536 bytes if
-- the body gives its end together with the last bytes. Of a longer line nothing is sent, nor of what
-- follows it.
pub piped-lines :
    (eof : Bool) (ls : List Bytes) (l long rest : Bytes)
    → All (IsLine max_line) ls
    → IsLine (room eof []) l
    → LacksNewline long
    → room eof rest < length long
    → (piped eof (ended ls l) ≡ flat_map to_custom (ls ++ l ∷ []))
      × (piped eof (ended ls (long ++ rest)) ≡ flat_map to_custom ls)
unfolding piped
piped-lines eof ls l long rest all line lacks more = (
  rw
      (
        lines-ended eof ls l all,
        lines-last eof l line,
        flat_map-append,
        piped-last_line (room eof []) l line,
      )
      (sym (flat_map-append to_custom ls (l ∷ []))),
  rw (lines-ended eof ls (long ++ rest) all, lines-long eof long rest lacks more, append-nil) refl,
)

lookup-insert_self : (k : String) (v : Bytes) (d : Dict Bytes) → lookup k (insert k v d) ≡ some v
lookup-insert_self k v d = simp (lookup-insert, eq_refl)

named_path :
    (set_url : Request → Request) (request out : Request)
    → contains request.path native ≡ true
    → contains (set_url out).path native ≡ true
    → contains (rewrite set_url request out).path custom ≡ true
unfolding rewrite
named_path set_url request out named routed =
    rw named (contains-replace_all _ _ custom (set_url out).path routed)

-- One request that names the native API, when the routing keeps that name: the server is sent a path
-- that names the custom API, and the client is given the server's body with the native name, the
-- error of reading it, and the length of what it is given, in the header too.
pub exchange-answer :
    (set_url : Request → Request) (serve : Request → Response) (request out : Request)
    → contains request.path native ≡ true
    → contains (set_url out).path native ≡ true
    → (digits : Bytes) × (contains (rewrite set_url request out).path custom ≡ true)
      × ((exchange set_url serve request out).0 ≡ (serve (rewrite set_url request out)).read_error)
      × ((exchange set_url serve request out).1.body
          ≡ to_native (serve (rewrite set_url request out)).body)
      × ((exchange set_url serve request out).1.content_length
          ≡ some (length (exchange set_url serve request out).1.body))
      × (lookup "Content-Length" (exchange set_url serve request out).1.header ≡ some digits)
      × (value 0 digits ≡ length (exchange set_url serve request out).1.body)
unfolding exchange modify_response
exchange-answer set_url serve request out named routed =
    let there = named_path set_url request out named routed in
    (
      itoa (length (to_native (serve (rewrite set_url request out)).body)),
      there,
      rw there refl,
      rw there refl,
      rw there refl,
      rw there (lookup-insert_self _ _ _),
      rw there (value-itoa _),
    )
