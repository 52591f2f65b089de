-- ===== src/Ircmsg/Tags/Stuck.antt =====
-- The loop of `Tags::parse` does not end on a key that begins with a colon.
use vinezombie.Prelude.{
  ℕ, zero, suc, ◌<◌, ◌≡◌, refl, ap, ◌∙◌, true, false, Option, none, [], ◌∷◌, arith, Bytes, length,
}
use vinezombie.Text.Kinds.{InvalidString, colon, key, Result, err, is_invalid, check_others}
use vinezombie.Text.Splitter.{Splitter, new, is_empty, string, consume_invalid}
use vinezombie.Text.Splitter.View.{View, new-View, View-length, string-err, consume_invalid-View}
use vinezombie.Ircmsg.Tags.{Tags, parse_loop, parse_round, parse_tags}

pub is_empty-nil : {s : Splitter} {bs : Bytes} → View s bs → bs ≡ [] → is_empty s ≡ true
unfolding is_empty
is_empty-nil v e = ground (arith, ap length e, View-length v)

pub is_empty-cons : {s : Splitter} {bs : Bytes} → View s bs → 0 < length bs → is_empty s ≡ false
unfolding is_empty
is_empty-cons v h = ground (arith, View-length v)

round-err :
    (r : Result InvalidString Bytes × Splitter) (tags : Tags) (loop : Splitter → Tags → Option Tags)
    {e : InvalidString}
    → r.0 ≡ err e
    → parse_round r tags loop ≡ loop (consume_invalid key r.1) tags
round-err r tags loop h = rw (h, parse_round)

-- At a colon no byte is consumed, so no fuel is enough.
parse_loop-colon :
    (fuel : ℕ) (s : Splitter) (cs : Bytes) (tags : Tags)
    → View s (b':' ∷ cs)
    → parse_loop fuel s tags ≡ none
unfolding parse_loop
parse_loop-colon zero s cs tags v = refl
parse_loop-colon (suc fuel) s cs tags v = rw (is_empty-cons v (omega arith)) (
    round-err (string key false s) tags (parse_loop fuel) failed.0
    ∙ parse_loop-colon fuel _ cs tags (rw failed.1 stays))
  where
    failed : ((string key false s).0 ≡ err colon) × ((string key false s).1 ≡ s)
    failed = string-err v key (unfold is_invalid check_others in refl)

    stays : View (consume_invalid key s) (b':' ∷ cs)
    stays = unfold is_invalid in consume_invalid-View v key

-- Tags whose first key begins with a colon are never parsed: `parse` does not return, whatever
-- follows and however long it runs.
pub parse_tags-colon : (fuel : ℕ) (cs : Bytes) → parse_tags fuel (b':' ∷ cs) ≡ none
unfolding parse_tags
parse_tags-colon fuel cs =
    rw
      (parse_loop-colon fuel (new (b':' ∷ cs) false) cs [] (new-View (b':' ∷ cs) false), parse_tags)
