-- ===== src/Cli/RoundTrip.antt =====
-- The -peers flag of cmd/coordinator/main.go, written and read back.
use Prim.Native.Char.{Char, code}
use Prim.Native.String.{◌++◌ as str_append}
use text.Mathlib.TextLemmas.{nil-append, cons-append}
use ensemble_chat.Common.{
  ℕ, ◌^◌, ◌<◌, ◌≡◌, ◌≢◌, inl, inr, refl, ap, sym, ◌∙◌, ℤ, pos, eq_ℤ, Bool, true, false, Option,
  none, some, List, [], ◌∷◌, ◌++◌, map, append_assoc, append-nil, String, ◌==◌, if◌then◌else◌,
  arith,
}
use ensemble_chat.Cli.{Peers, Flag, parsed, add_peer, parse_entries, no_peers, parse_peers}
use ensemble_chat.Cli.Text.{is_empty, split, split_two, atoi}
use ensemble_chat.Cli.Decimal.{itoa, Lacks, numeral-Lacks, itoa-nonempty, itoa-IsNumeral, atoi-itoa}

-- `id=host:port`
unfoldable pub print_entry : ℕ × String → String
print_entry (id, addr) = str_append (itoa id) (str_append "=" addr)

-- The entries with commas between them.
unfoldable pub join : List String → String
join [] = ""
join (entry ∷ []) = entry
join (entry ∷ next ∷ entries) = str_append entry (str_append "," (join (next ∷ entries)))

unfoldable pub print_peers : List (ℕ × String) → String
unfolding print_entry join
print_peers peers = join (map print_entry peers)

-- Ids below 2 ^ 63 and addresses without a comma.
abbrev pub ArePrintable : List (ℕ × String) → Type 0
ArePrintable [] = Unit
ArePrintable ((id, addr) ∷ peers) = (id < 2 ^ 63) × Lacks b',' addr × ArePrintable peers

abbrev pub AllLack : (sep : ℕ) → List String → Type 0
AllLack sep [] = Unit
AllLack sep (part ∷ parts) = Lacks sep part × AllLack sep parts

abbrev pub or_else : Option String → Option String → Option String
or_else none other = other
or_else (some addr) other = some addr

or_none : (o : Option String) → or_else o none ≡ o
or_none none = refl
or_none (some addr) = refl

-- The address behind an id: the last one counts.
unfoldable pub last_addr : List (ℕ × String) → ℤ → Option String
last_addr [] i = none
last_addr ((id, addr) ∷ peers) i =
    or_else (last_addr peers i) (if eq_ℤ (pos id) i then some addr else none)

differ : (c : Char) (sep : ℕ) → code c ≢ sep → (code c == sep) ≡ false
differ c sep h = ground (arith, h)

split_part : (sep : ℕ) (s : String) → Lacks sep s → split sep s ≡ s ∷ []
unfolding split
split_part sep String.[] h = refl
split_part sep (String.◌∷◌ c s) (h, hs) = rw (differ c sep h, split_part sep s hs) refl

split_at :
    (s rest : String)
    → Lacks b',' s
    → split b',' (str_append s (str_append "," rest)) ≡ s ∷ split b',' rest
unfolding split
split_at String.[] rest h =
    rw (nil-append (str_append "," rest), cons-append "," "" rest, nil-append rest) refl
split_at (String.◌∷◌ c s) rest (h, hs) =
    rw (cons-append c s (str_append "," rest), differ c b',' h, split_at s rest hs) refl

split-join :
    (s : String) (parts : List String)
    → AllLack b',' (s ∷ parts)
    → split b',' (join (s ∷ parts)) ≡ s ∷ parts
unfolding join
split-join s [] (h, _) = split_part b',' s h
split-join s (part ∷ parts) (h, hs) = split_at s _ h ∙ ap (◌∷◌ s) (split-join part parts hs)

split_key :
    (key addr : String)
    → Lacks b'=' key
    → split_two b'=' (str_append key (str_append "=" addr)) ≡ some (key, addr)
unfolding split_two
split_key String.[] addr h =
    rw (nil-append (str_append "=" addr), cons-append "=" "" addr, nil-append addr) refl
split_key (String.◌∷◌ c key) addr (h, hs) =
    rw (cons-append c key (str_append "=" addr), differ c b'=' h, split_key key addr hs) refl

Lacks-append : (sep : ℕ) (s t : String) → Lacks sep s → Lacks sep t → Lacks sep (str_append s t)
Lacks-append sep String.[] t hs ht = rw (nil-append t) ht
Lacks-append sep (String.◌∷◌ c s) t (h, hs) ht =
    rw (cons-append c s t) (h, Lacks-append sep s t hs ht)

entries-AllLack :
    (peers : List (ℕ × String)) → ArePrintable peers → AllLack b',' (map print_entry peers)
unfolding print_entry
entries-AllLack [] h = tt
entries-AllLack ((id, addr) ∷ peers) (l, h, hs) = (
  Lacks-append b',' (itoa id) _
      (numeral-Lacks b',' (itoa id) (inl (omega arith)) (itoa-IsNumeral id))
      (Lacks-append b',' "=" addr (omega arith, tt) h),
  entries-AllLack peers hs,
)

parse_entries_step :
    (p : Peers) (entry key addr : String) (pid : ℤ) (entries : List String)
    → split_two b'=' entry ≡ some (key, addr)
    → atoi key ≡ some pid
    → parse_entries p (entry ∷ entries) ≡ parse_entries (add_peer p pid addr) entries
unfolding parse_entries
parse_entries_step p entry key addr pid entries e e' = rw (e, e', parse_entries) refl

parse_printed :
    (p : Peers) (id : ℕ) (addr : String) (entries : List String)
    → id < 2 ^ 63
    → parse_entries p (print_entry (id, addr) ∷ entries)
      ≡ parse_entries (add_peer p (pos id) addr) entries
unfolding print_entry
parse_printed p id addr entries l =
    parse_entries_step p (print_entry (id, addr)) (itoa id) addr (pos id) entries
      (split_key (itoa id) addr
        (numeral-Lacks b'=' (itoa id) (inr (omega arith)) (itoa-IsNumeral id)))
      (atoi-itoa id l)

later_first :
    (o : Option String) (b : Bool) (addr : String) (before : Option String)
    → or_else o (if b then some addr else before)
      ≡ or_else (or_else o (if b then some addr else none)) before
later_first none true addr before = refl
later_first none false addr before = refl
later_first (some x) b addr before = refl

-- The peers that the program gets from the entries, after those that it has already.
abbrev pub Got : (p : Peers) → List (ℕ × String) → Flag → Type 0
Got p peers flag =
    (q : Peers) × (flag ≡ parsed q)
    × (q.peer_ids ≡ p.peer_ids ++ map (λ x. pos x.0) peers)
    × ((i : ℤ) → q.peer_addrs i ≡ or_else (last_addr peers i) (p.peer_addrs i))

parse_all :
    (p : Peers) (peers : List (ℕ × String))
    → ArePrintable peers
    → Got p peers (parse_entries p (map print_entry peers))
unfolding parse_entries last_addr add_peer
parse_all p [] h = (p, refl, sym (append-nil p.peer_ids), λ i. refl)
parse_all p ((id, addr) ∷ peers) (l, _, hs) =
    let (q, e, ids, addrs) = parse_all (add_peer p (pos id) addr) peers hs in
    (
      q,
      parse_printed p id addr (map print_entry peers) l ∙ e,
      ids ∙ append_assoc p.peer_ids (pos id ∷ []) (map (λ x. pos x.0) peers),
      λ i. addrs i ∙ later_first (last_addr peers i) (eq_ℤ (pos id) i) addr (p.peer_addrs i),
    )

nonempty-append : (s t : String) → is_empty s ≡ false → is_empty (str_append s t) ≡ false
nonempty-append String.[] t h = absurd (cc)
nonempty-append (String.◌∷◌ c s) t h = rw (cons-append c s t) refl

print-nonempty :
    (id : ℕ) (addr : String) (peers : List (ℕ × String))
    → is_empty (print_peers ((id, addr) ∷ peers)) ≡ false
unfolding print_peers join print_entry
print-nonempty id addr [] = nonempty-append (itoa id) _ (itoa-nonempty id)
print-nonempty id addr (next ∷ peers) =
    nonempty-append _ _ (nonempty-append (itoa id) _ (itoa-nonempty id))

parse_flag :
    (flag : String)
    → is_empty flag ≡ false
    → parse_peers flag ≡ parse_entries no_peers (split b',' flag)
unfolding parse_peers
parse_flag flag e = rw (e, parse_peers) refl

-- Peers with ids below 2 ^ 63 and addresses without a comma, written as `id=address` with commas between,
-- are read back: the ids in the order of the flag, repeated ones included, and under each id the last
-- address that the flag gives it.
pub parse_peers-print_peers :
    (peers : List (ℕ × String))
    → ArePrintable peers
    → (q : Peers) × (parse_peers (print_peers peers) ≡ parsed q)
      × (q.peer_ids ≡ map (λ x. pos x.0) peers)
      × ((i : ℤ) → q.peer_addrs i ≡ last_addr peers i)
unfolding print_peers
parse_peers-print_peers [] h =
    (no_peers, unfold parse_peers last_addr in refl, refl, λ i. unfold last_addr in refl)
parse_peers-print_peers ((id, addr) ∷ peers) h =
    let (q, e, ids, addrs) = parse_all no_peers ((id, addr) ∷ peers) h in
    (
      q,
      parse_flag _ (print-nonempty id addr peers)
          ∙ ap (parse_entries no_peers) (
              split-join (print_entry (id, addr)) (map print_entry peers)
                (entries-AllLack ((id, addr) ∷ peers) h))
          ∙ e,
      ids,
      λ i. addrs i ∙ or_none (last_addr ((id, addr) ∷ peers) i),
    )
