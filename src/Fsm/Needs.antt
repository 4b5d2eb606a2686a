-- ===== src/Fsm/Needs.antt =====
-- TestIfNeedBacktracking of pkg/mapper/fsm/fsm.go. Its regular expressions are built from the
-- mappings by replacing dots and stars; here they are lists of tokens, for mappings of letters,
-- digits, underscores, dashes, dots and stars, which InitFromYAMLString admits. The logs are left
-- out.
use statsd_bridge.Prelude.{
  ℕ, Bool, true, false, not, ◌&&◌, ◌||◌, List, [], ◌∷◌, ◌++◌, length, ◌==◌, if◌then◌else◌, Bytes,
  contains, has_prefix, split,
}
use statsd_bridge.Fsm.{star}

-- `literal c` stands for the byte, `group` for ([^.]*).
pub data Token : Type 0 where
  literal : ℕ → Token
  group : Token

-- the expression between ^ and $ for a mapping
unfoldable pub expression : Bytes → List Token
expression [] = []
expression (c ∷ s) = let more = expression s in if c == b'*' then group ∷ more else literal c ∷ more

-- Does ^…$ match the text? A group takes no byte or one more.
unfoldable pub matches : List Token → Bytes → Bool
matches [] [] = true
matches [] (c ∷ s) = false
matches (literal b ∷ ts) [] = false
matches (literal b ∷ ts) (c ∷ s) = b == c && matches ts s
matches (group ∷ ts) [] = matches ts []
matches (group ∷ ts) (c ∷ s) = matches ts (c ∷ s) || (not (c == b'.') && matches (group ∷ ts) s)

-- re.FindStringSubmatchIndex for the rule `r1`
unfoldable pub rule_matches : Bytes → Bytes → Bool
unfolding expression matches
rule_matches r1 r2 = matches (expression r1) r2

-- Does one of the rules match, or have the property?
unfoldable pub exists : (Bytes → Bool) → List Bytes → Bool
exists p [] = false
exists p (r ∷ rs) = p r || exists p rs

-- the loop over the stars of r1, with `before` in front: does one of the other rules begin with what
-- stands before a star?
unfoldable pub branches : Bytes → Bytes → List Bytes → Bool
unfolding exists
branches before [] others = false
branches before (c ∷ s) others =
    (c == b'*' && exists (λ r2. has_prefix r2 before) others)
    || branches (before ++ c ∷ []) s others

-- one round of the loop over the rules of one length
unfoldable pub rule_needs_backtracking : Bytes → List Bytes → Bool
unfolding branches rule_matches
rule_needs_backtracking r1 others =
    contains r1 star
    && branches [] r1 others
    && not (exists (λ r2. rule_matches r1 r2) others)
    && not (exists (λ r2. rule_matches r2 r1) others)

-- the loop over the rules of one length, with those before the rule
unfoldable pub rules_need_backtracking : List Bytes → List Bytes → Bool
unfolding rule_needs_backtracking
rules_need_backtracking before [] = false
rules_need_backtracking before (r ∷ rs) =
    rule_needs_backtracking r (before ++ rs) || rules_need_backtracking (before ++ r ∷ []) rs

unfoldable pub of_length : ℕ → List Bytes → List Bytes
of_length n [] = []
of_length n (r ∷ rs) =
    let more = of_length n rs in if length (split b'.' r) == n then r ∷ more else more

-- the loop over the lengths, which are those of the rules
unfoldable pub some_length_needs : List Bytes → List Bytes → Bool
unfolding rules_need_backtracking of_length
some_length_needs [] rules = false
some_length_needs (r ∷ rs) rules =
    rules_need_backtracking [] (of_length (length (split b'.' r)) rules)
    || some_length_needs rs rules

-- TestIfNeedBacktracking
unfoldable pub test_if_need_backtracking : List Bytes → Bool → Bool
unfolding some_length_needs
test_if_need_backtracking mappings ordering_disabled =
    not ordering_disabled || some_length_needs mappings mappings
