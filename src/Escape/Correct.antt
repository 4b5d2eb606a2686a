-- ===== src/Escape/Correct.antt =====
-- EscapeMetricName on valid UTF-8, against a translation rune by rune.
use statsd_bridge.Prelude.{
  ℕ, zero, suc, ◌+◌, ◌-◌, ◌≤◌, ◌<◌, ◌≡◌, ◌∙◌, refl, sym, ap, Bool, true, false, ◌&&◌, inl, inr,
  Option, some, [], ◌∷◌, ◌++◌, ltb, leb, ◌==◌, length, drop, if◌then◌else◌, Bytes, arith,
  Bool-cases, append_assoc, append-nil, length-append, drop-append_le, drop-all, length-drop,
  take-append, ltb→ge,
}
use mathlib.Core.Path.{subst}
use statsd_bridge.Prelude.Utf8.{decode, rune_len, valid_from, valid_string, decode-IsDecoded}
use statsd_bridge.Escape.{
  underscore, dash, is_digit, is_name_char, slice, Escaper, escape_rune, escape_loop, finish, start,
  escape_metric_name,
}

-- The name, rune by rune: name characters stay, any other rune becomes an underscore, and a dash
-- that follows a dash becomes nothing. `k` bytes of the present rune are left.
unfoldable pub name_of : ℕ → ℕ → Bytes → Bytes
name_of k prev [] = []
name_of (suc k) prev (b ∷ s) = name_of k prev s
name_of zero prev (b ∷ s) =
    let r = decode b s in
    let rest = name_of (r.width - 1) r.code s in
    if is_name_char r.code
    then r.code ∷ rest
    else if r.code == dash && prev == dash
    then rest
    else underscore ∷ rest

unfoldable pub metric_name_of : Bytes → Bytes
metric_name_of [] = []
metric_name_of (b ∷ s) = (if is_digit b then underscore ∷ [] else []) ++ name_of 0 0 (b ∷ s)

-- Between the rounds: `before` has been read, `out` is the name for it, of which the part from
-- `offset` on is still to be copied.
record IsCopied (i k : ℕ) (before out : Bytes) (st : Escaper) : Type 0 where
  index : i ≡ length before
  copied : st.sb ++ drop st.offset before ≡ out
  bound : st.offset ≤ i + k
  inside : 0 < k → st.offset ≡ i + k
  after_dash : (st.prev_char == dash) ≡ true → (st.offset ≡ i + k) × (st.escaped ≡ true)
  lazy : st.escaped ≡ false → (st.offset ≡ 0) × (st.sb ≡ [])

IsCopied-inside :
    (i k : ℕ) (b : ℕ) (before out : Bytes) (st : Escaper)
    → IsCopied i (suc k) before out st
    → IsCopied (i + 1) k (before ++ b ∷ []) out st
IsCopied-inside i k b before out st h =
    let len = length-append before (b ∷ []) in
    let at : st.offset ≡ i + suc k = h.inside (omega arith) in
    record {
      index = omega (arith, len, h.index);
      copied =
          rw (drop-all st.offset (before ++ b ∷ []) (omega (arith, len, h.index, at)))
            (rw (drop-all st.offset before (omega (arith, h.index, at))) at (h.copied));
      bound = omega (arith, at);
      inside = λ _. omega (arith, at);
      after_dash = λ d. (omega (arith, at), (h.after_dash d).1);
      lazy = h.lazy;
    }

slice-before :
    (offset i : ℕ) (before after : Bytes)
    → i ≡ length before
    → offset ≤ i
    → slice (before ++ after) offset i ≡ some (drop offset before)
unfolding slice
slice-before offset i before after e h =
    let t1 : leb offset i ≡ true = ground arith in
    let t2 : leb i (length (before ++ after)) ≡ true = ground (arith, length-append before after) in
    let t3 : i - offset ≡ length (drop offset before) = omega (arith, length-drop offset before) in
    rw (t1, t2, drop-append_le offset before after (omega arith), t3)
      (rw (take-append (drop offset before) after))

finish_lem :
    (i k : ℕ) (name out : Bytes) (st : Escaper) → IsCopied i k name out st → finish name st ≡ out
unfolding finish
finish_lem i k name out st h = elim (Bool-cases st.escaped) [
  | inl yes_ ↦ rw yes_ (elim (Bool-cases (ltb st.offset (length name))) [
    | inl some_left ↦ rw some_left h.copied
    | inr all_done ↦ rw all_done (
        sym (append-nil st.sb)
        ∙ rw (drop-all st.offset name (ltb→ge st.offset (length name) all_done)) at (h.copied))
  ])
  | inr no_ ↦ rw no_ (rw (h.lazy no_).0 at (rw (h.lazy no_).1 at (h.copied)))
]

-- A name character is read: it is one byte, and nothing is copied yet.
IsCopied-name_char :
    (i b : ℕ) (s before out : Bytes) (st : Escaper)
    → is_name_char (decode b s).code ≡ true
    → IsCopied i 0 before out st
    → IsCopied
        (i + 1)
        ((decode b s).width - 1)
        (before ++ b ∷ [])
        (out ++ (decode b s).code ∷ [])
        (record st { prev_char = (decode b s).code })
unfolding is_name_char
IsCopied-name_char i b s before out st n h =
    let len = length-append before (b ∷ []) in
    let (_, ascii, _) = decode-IsDecoded b s in
    let (same, one) = ascii (ground arith) in
    record {
      index = omega (arith, len, h.index);
      copied =
          rw (drop-append_le st.offset before (b ∷ []) (omega (arith, h.bound, h.index)), same)
            (sym (append_assoc st.sb (drop st.offset before) (b ∷ []))
              ∙ ap (λ (t : Bytes). t ++ b ∷ []) h.copied);
      bound = omega (arith, h.bound);
      inside = λ p. absurd (omega (arith, one));
      after_dash = λ d. absurd (ground arith);
      lazy = h.lazy;
    }

rune_len_ascii : (c : ℕ) → c ≡ dash → rune_len c ≡ 1
unfolding rune_len
rune_len_ascii c e = ground arith

-- A second dash is passed over.
IsCopied-dash :
    (i b : ℕ) (s before out : Bytes) (st : Escaper)
    → ((decode b s).code == dash && st.prev_char == dash) ≡ true
    → IsCopied i 0 before out st
    → IsCopied
        (i + 1)
        ((decode b s).width - 1)
        (before ++ b ∷ [])
        out
        (record st { offset = i + rune_len (decode b s).code })
IsCopied-dash i b s before out st d h =
    let len = length-append before (b ∷ []) in
    let (_, ascii, _) = decode-IsDecoded b s in
    let is_dash : (decode b s).code ≡ dash = ground arith in
    let one : (decode b s).width ≡ 1 = (ascii (ground arith)).1 in
    let long = rune_len_ascii (decode b s).code is_dash in
    let (at, on) = h.after_dash (ground arith) in
    let out_now = rw (drop-all st.offset before (omega (arith, at, h.index))) at (h.copied) in
    record {
      index = omega (arith, len, h.index);
      copied =
          rw
            (drop-all (i + rune_len (decode b s).code) (before ++ b ∷ [])
              (omega (arith, len, h.index, long)))
            out_now;
      bound = omega (arith, long, one);
      inside = λ p. absurd (omega (arith, one));
      after_dash = λ _. (omega (arith, long, one), on);
      lazy = λ off. cc;
    }

-- Any other rune: what was passed is copied, with an underscore behind it.
IsCopied-other :
    (i b : ℕ) (s before out : Bytes) (st : Escaper)
    → rune_len (decode b s).code ≡ (decode b s).width
    → IsCopied i 0 before out st
    → IsCopied
        (i + 1)
        ((decode b s).width - 1)
        (before ++ b ∷ [])
        (out ++ underscore ∷ [])
        (record {
          escaped = true;
          sb = st.sb ++ (drop st.offset before ++ underscore ∷ []);
          offset = i + rune_len (decode b s).code;
          prev_char = (decode b s).code;
        })
IsCopied-other i b s before out st w h =
    let len = length-append before (b ∷ []) in
    let (pos_width, _, _) = decode-IsDecoded b s in
    record {
      index = omega (arith, len, h.index);
      copied =
          rw
            (drop-all (i + rune_len (decode b s).code) (before ++ b ∷ [])
              (omega (arith, len, h.index, w, pos_width)))
            (append-nil _
              ∙ sym (append_assoc st.sb (drop st.offset before) (underscore ∷ []))
              ∙ ap (λ (t : Bytes). t ++ underscore ∷ []) h.copied);
      bound = omega (arith, w, pos_width);
      inside = λ p. omega (arith, w, pos_width);
      after_dash = λ _. (omega (arith, w, pos_width), refl);
      lazy = λ off. cc;
    }

valid_rune :
    (b : ℕ) (s : Bytes)
    → valid_from 0 (b ∷ s) ≡ true
    → (rune_len (decode b s).code ≡ (decode b s).width)
      × (valid_from ((decode b s).width - 1) s ≡ true)
unfolding valid_from
valid_rune b s h = let (_, _, known) = decode-IsDecoded b s in (known (ground arith), ground arith)

abbrev EndsWith : Bytes → Option Escaper → Bytes → Type 0
EndsWith name o out = (st : Escaper) × (o ≡ some st) × (finish name st ≡ out)

escape_loop_lem :
    (name before s out : Bytes) (i k : ℕ) (st : Escaper)
    → name ≡ before ++ s
    → valid_from k s ≡ true
    → IsCopied i k before out st
    → EndsWith name (escape_loop name i k s st) (out ++ name_of k st.prev_char s)
unfolding escape_loop name_of escape_rune
escape_loop_lem name before [] out i k st e v h =
    (st, refl, finish_lem i k name out st (rw e (rw (append-nil before) h)) ∙ sym (append-nil out))
escape_loop_lem name before (b ∷ s) out i (suc k) st e v h =
    escape_loop_lem name (before ++ b ∷ []) s out (i + 1) k st
      (e ∙ sym (append_assoc before (b ∷ []) s)) (unfold valid_from in v)
      (IsCopied-inside i k b before out st h)
escape_loop_lem name before (b ∷ s) out i zero st e v h =
    let r = decode b s in
    let (w, rest) = valid_rune b s v in
    let next = λ (out' : Bytes) (st' : Escaper).
      escape_loop_lem name (before ++ b ∷ []) s out' (i + 1) (r.width - 1) st'
        (e ∙ sym (append_assoc before (b ∷ []) s)) rest in
    elim (Bool-cases (is_name_char r.code)) [
      | inl good ↦ rw good (
          rw (append_assoc out (r.code ∷ []) (name_of (r.width - 1) r.code s)) at (
            next (out ++ r.code ∷ []) (record st { prev_char = r.code })
              (IsCopied-name_char i b s before out st good h)))
      | inr bad ↦ rw bad (elim (Bool-cases (r.code == dash && st.prev_char == dash)) [
        | inl twice ↦ rw twice (
            let same : st.prev_char ≡ r.code = ground arith in
            subst
              (λ (p : ℕ).
                EndsWith name
                  (escape_loop name (i + 1) (r.width - 1) s
                    (record st { offset = i + rune_len r.code }))
                  (out ++ name_of (r.width - 1) p s))
              same
              (next out (record st { offset = i + rune_len r.code })
                (IsCopied-dash i b s before out st twice h)))
        | inr other ↦
            let sliced : slice name st.offset i ≡ some (drop st.offset before) =
              rw e (slice-before st.offset i before (b ∷ s) h.index (omega (arith, h.bound))) in
            rw (other, sliced)
              (rw (append_assoc out (underscore ∷ []) (name_of (r.width - 1) r.code s)) at
                (next (out ++ underscore ∷ []) _ (IsCopied-other i b s before out st w h)))
      ])
    ]

IsCopied-start :
    (digit : Bool) → IsCopied 0 0 [] (if digit then underscore ∷ [] else []) (start digit)
unfolding start
IsCopied-start true = record {
  index = refl;
  copied = refl;
  bound = omega arith;
  inside = λ p. refl;
  after_dash = λ d. absurd (ground arith);
  lazy = λ off. cc;
}
IsCopied-start false = record {
  index = refl;
  copied = refl;
  bound = omega arith;
  inside = λ p. refl;
  after_dash = λ d. absurd (ground arith);
  lazy = λ off. (refl, refl);
}

-- On valid UTF-8 EscapeMetricName returns, with no slice out of range, the name rune by rune: name
-- characters are kept, other runes become one underscore each, a dash behind a dash becomes
-- nothing, and a leading digit gets an underscore in front.
pub escape_metric_name-eq :
    (name : Bytes) → valid_string name ≡ true → escape_metric_name name ≡ some (metric_name_of name)
unfolding escape_metric_name metric_name_of
escape_metric_name-eq [] v = refl
escape_metric_name-eq (b ∷ s) v =
    let (st, e, out) =
      escape_loop_lem (b ∷ s) [] (b ∷ s) (if is_digit b then underscore ∷ [] else []) 0 0
        (start (is_digit b)) refl v (IsCopied-start (is_digit b)) in
    rw e (ap {B = Option Bytes} some out)
