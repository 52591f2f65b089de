-- ===== src/Client/Cap/Requests.antt =====
-- The requests of `src/client/cap.rs`.
use vinezombie.Prelude.{
  ◌+◌, ◌≤◌, ◌<◌, ◌≡◌, refl, sym, ap, ◌∙◌, true, false, Bool-cases, inl, inr, ◌⊎◌, Option, some,
  List, [], ◌∷◌, ◌++◌, append_assoc, Bytes, codes, length, length-append, ltb, arith, ltb→lt,
  ltb-false, Option-cases, subst,
}
use vinezombie.Text.Kinds.{arg, find_invalid}
use vinezombie.Ircmsg.Args.{split_last, add, add_word}
use vinezombie.Ircmsg.Source.{Source}
use vinezombie.Ircmsg.Codec.{ClientMsg}
use vinezombie.Client.Messages.{with_word}
use vinezombie.Client.Auth.Handler.RuledOut.{All}
use vinezombie.Client.Cap.{append_cap, flush, with_text, req_loop, req_msg, base_len, req}
use vinezombie.Client.Cap.Replies.{
  spaced, reply_size, reply_size-append, base_len-left, spaced-append,
}

-- A message is `CAP REQ` with capabilities.
abbrev pub IsRequest : ClientMsg → List Bytes → Type 0
IsRequest m ks =
    (m.tags ≡ [])
    × (m.command ≡ codes "CAP")
    × (split_last m.args ≡ (codes "REQ" ∷ [], some (spaced ks)))

-- Each message requests one group.
abbrev pub Requests : List ClientMsg → List (List Bytes) → Type 0
Requests [] [] = Unit
Requests (m ∷ ms) (g ∷ gs) = IsRequest m g × Requests ms gs
Requests [] (g ∷ gs) = ⊥
Requests (m ∷ ms) [] = ⊥

abbrev pub concat : List (List Bytes) → List Bytes
concat [] = []
concat (g ∷ gs) = g ++ concat gs

module _ (client : Option Bytes) (server : Option Source) where
  -- One capability, or several whose acknowledgement has at most 508 bytes and the end of the line.
  abbrev pub Fits : List Bytes → Type 0
  Fits g = (length g ≡ 1) ⊎ (reply_size client server g ≤ 508)

  -- No group could have had the first capability of the next one too.
  abbrev pub Greedy : List (List Bytes) → Type 0
  Greedy [] = Unit
  Greedy (g ∷ []) = Unit
  Greedy (g ∷ [] ∷ gs) = ⊥
  Greedy (g ∷ (k ∷ h) ∷ gs) = (508 < reply_size client server (g ++ k ∷ [])) × Greedy ((k ∷ h) ∷ gs)

  -- The messages request groups of the capabilities.
  pub record Grouped (caps : List Bytes) (msgs : List ClientMsg) : Type 0 where
    pub groups : List (List Bytes)
    pub whole : concat groups ≡ caps
    pub sent : Requests msgs groups
    pub fitting : All Fits groups
    pub full : Greedy groups

  -- The same, when the first group begins with a capability.
  record Begun (x : Bytes) (caps : List Bytes) (msgs : List ClientMsg) : Type 0 where
    more : List Bytes
    others : List (List Bytes)
    whole : (x ∷ more) ++ concat others ≡ caps
    sent : Requests msgs ((x ∷ more) ∷ others)
    fitting : All Fits ((x ∷ more) ∷ others)
    full : Greedy ((x ∷ more) ∷ others)

  moved :
      {x : Bytes} {caps caps' : List Bytes} {msgs msgs' : List ClientMsg}
      → caps ≡ caps'
      → msgs ≡ msgs'
      → Begun x caps msgs
      → Begun x caps' msgs'
  moved {x} {caps} {caps'} {msgs} {msgs'} e e' r =
      subst (λ ms. Begun x caps' ms) e' (subst (λ cs. Begun x cs msgs) e r)

  append_cap-some : (cs k : Bytes) → 1 ≤ length cs → append_cap cs k ≡ cs ++ (b' ' ∷ k)
  append_cap-some [] k n = absurd (omega arith)
  append_cap-some (c ∷ cs) k n = refl

  flush-some :
      (msg : ClientMsg) (cs : Bytes) (rest : List ClientMsg)
      → 1 ≤ length cs
      → flush msg cs rest ≡ with_text msg cs ∷ rest
  flush-some msg [] rest n = absurd (omega arith)
  flush-some msg (c ∷ cs) rest n = refl

  with_text-split_last :
      (text : Bytes) → split_last (with_text req_msg text).args ≡ (codes "REQ" ∷ [], some text)
  unfolding with_text req_msg with_word add add_word split_last
  with_text-split_last text = elim (Option-cases (find_invalid arg text)) [
    | inl e ↦ rw (e, add) refl
    | inr (i, e) ↦ rw (e, add) refl
  ]

  with_text-IsRequest : (ks : List Bytes) → IsRequest (with_text req_msg (spaced ks)) ks
  unfolding with_text req_msg with_word
  with_text-IsRequest ks = (refl, refl, with_text-split_last (spaced ks))

  module _ (caps : List Bytes) (k cs : Bytes) where
    req_loop-fits :
        ltb (length cs + length k) (base_len client server) ≡ true
        → req_loop (base_len client server) req_msg (k ∷ caps) cs
          ≡ req_loop (base_len client server) req_msg caps (append_cap cs k)
    unfolding req_loop
    req_loop-fits e = rw (e, req_loop)

    req_loop-full :
        ltb (length cs + length k) (base_len client server) ≡ false
        → req_loop (base_len client server) req_msg (k ∷ caps) cs
          ≡ flush req_msg cs (req_loop (base_len client server) req_msg caps k)
    unfolding req_loop
    req_loop-full e = rw (e, req_loop)

  module _ (x : Bytes) (g : List Bytes) (k : Bytes) where
    append-Fits :
        ltb (length (spaced (x ∷ g)) + length k) (base_len client server) ≡ true
        → Fits ((x ∷ g) ++ k ∷ [])
    append-Fits e = inr (
        omega (
          arith,
          ltb→lt (length (spaced (x ∷ g)) + length k) (base_len client server) e,
          base_len-left client server,
          reply_size-append client server x g k,
        ))

    lt-reply_size :
        ltb (length (spaced (x ∷ g)) + length k) (base_len client server) ≡ false
        → 508 < reply_size client server ((x ∷ g) ++ k ∷ [])
    lt-reply_size e = omega (
      arith,
      ltb-false (length (spaced (x ∷ g)) + length k) (base_len client server) e,
      base_len-left client server,
      reply_size-append client server x g k,
    )

  loop-Begun :
      (caps : List Bytes) (x : Bytes) (g : List Bytes)
      → All (λ k. 1 ≤ length k) caps
      → Fits (x ∷ g)
      → 1 ≤ length (spaced (x ∷ g))
      → Begun x ((x ∷ g) ++ caps) (req_loop (base_len client server) req_msg caps (spaced (x ∷ g)))
  unfolding req_loop
  loop-Begun [] x g a f n = record {
    more = g;
    others = [];
    whole = refl;
    sent = (with_text-IsRequest (x ∷ g), tt);
    fitting = (f, tt);
    full = tt;
  }
  loop-Begun (k ∷ caps) x g a f n =
      elim (Bool-cases (ltb (length (spaced (x ∷ g)) + length k) (base_len client server))) [
        | inl e ↦
            let more : spaced ((x ∷ g) ++ k ∷ []) ≡ append_cap (spaced (x ∷ g)) k =
              spaced-append x g k ∙ sym (append_cap-some (spaced (x ∷ g)) k n) in
            let some_text : 1 ≤ length (spaced ((x ∷ g) ++ k ∷ [])) =
              omega (
                arith,
                ap length (spaced-append x g k),
                length-append (spaced (x ∷ g)) (b' ' ∷ k),
              ) in
            moved (append_assoc (x ∷ g) (k ∷ []) caps)
              (ap (req_loop (base_len client server) req_msg caps) more
                ∙ sym (req_loop-fits caps k (spaced (x ∷ g)) e))
              (loop-Begun caps x (g ++ k ∷ []) a.1 (append-Fits x g k e) some_text)
        | inr e ↦
            let r = loop-Begun caps k [] a.1 (inl refl) a.0 in
            moved refl
              (sym (
                req_loop-full caps k (spaced (x ∷ g)) e
                ∙ flush-some req_msg (spaced (x ∷ g))
                    (req_loop (base_len client server) req_msg caps k) n))
              (record {
                more = g;
                others = (k ∷ r.more) ∷ r.others;
                whole = ap (◌++◌ (x ∷ g)) r.whole;
                sent = (with_text-IsRequest (x ∷ g), r.sent);
                fitting = (f, r.fitting);
                full = (lt-reply_size x g k e, r.full);
              })
      ]

  first-Begun :
      (k : Bytes) (caps : List Bytes)
      → All (λ k. 1 ≤ length k) (k ∷ caps)
      → Begun k (k ∷ caps) (req_loop (base_len client server) req_msg (k ∷ caps) [])
  first-Begun k caps a =
      let r = loop-Begun caps k [] a.1 (inl refl) a.0 in
      elim (Bool-cases (ltb (0 + length k) (base_len client server))) [
        | inl e ↦ moved refl (sym (req_loop-fits caps k [] e)) r
        | inr e ↦ moved refl (sym (req_loop-full caps k [] e)) r
      ]

-- Some capabilities, none of them empty, are requested each once and in order: every message is `CAP REQ`,
-- without tags, and its last argument has one group of capabilities that follow each other, with a space
-- between each two of them. A group is one capability, or else the `CAP ACK` line in which this server would
-- acknowledge it to this client, as `ServerMsg` writes it, has at most 508 bytes and its end. No group
-- leaves out a capability that it has place for: with the first one of the next group, that line would have
-- more than 508 bytes.
pub req-Grouped :
    (k : Bytes) (caps : List Bytes) (client : Option Bytes) (server : Option Source)
    → All (λ k. 1 ≤ length k) (k ∷ caps)
    → Grouped client server (k ∷ caps) (req (k ∷ caps) client server)
unfolding req
req-Grouped k caps client server a =
    let r = first-Begun client server k caps a in
    record {
      groups = (k ∷ r.more) ∷ r.others;
      whole = r.whole;
      sent = r.sent;
      fitting = r.fitting;
      full = r.full;
    }
