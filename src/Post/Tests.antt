-- ===== src/Post/Tests.antt =====
-- post.go at concrete inputs.
use nntppool.Base.{◌≡◌, refl, none, some, [], ◌∷◌, ◌++◌, Bytes, ascii}
use nntppool.Post.{
  PostHeaders, validate, fold_header_line, is_valid_newsgroup_name, is_valid_header_name,
  contains_crlf, any_crlf, any_invalid_group, check_extra, from_crlf,
}
use nntppool.Post.Folding.{ink, fold_header_line-ink}
use nntppool.Post.Safety.{Clean, GroupsClean, ExtraClean, validate-Clean}

abbrev id_trim : Bytes → Bytes
id_trim s = s

abbrev article : PostHeaders
article = record {
  from = ascii "a@b.c";
  subject = ascii "hello";
  newsgroups = ascii "alt.test" ∷ [];
  message_id = ascii "<1@b.c>";
  extra = (ascii "X-No-Archive", ascii "yes" ∷ []) ∷ [];
}

article_passes : validate id_trim article ≡ none
unfolding validate is_valid_newsgroup_name is_valid_header_name contains_crlf any_crlf
    any_invalid_group check_extra
article_passes = refl

injection_fails :
    validate id_trim (record article { from = ascii "a@b.c" ++ 13 ∷ 10 ∷ ascii "X: y" })
    ≡ some from_crlf
unfolding validate contains_crlf
injection_fails = refl

validate-Clean_example :
    Clean article.from
    × Clean article.subject
    × GroupsClean id_trim article.newsgroups
    × Clean article.message_id
    × ExtraClean article.extra
validate-Clean_example = validate-Clean id_trim article article_passes

fold_header_line-ink_example :
    (out : Bytes) × (fold_header_line (ascii "Subject: hello") ≡ some out)
    × (ink out ≡ ink (ascii "Subject: hello"))
fold_header_line-ink_example = fold_header_line-ink (ascii "Subject: hello")
