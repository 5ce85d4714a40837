-- ===== src/Parser/Sip/Media.antt =====
-- plugins/parser/sip/sip.go: an `m=` line of `parseSDPBody` that gives no stream.
use otus.Text.{fields}
use otus.Base.{Bytes, ◌≡◌, none, some, ◌++◌, ◌∷◌, [], refl}
use otus.Parser.Sip.Sdp.{media_line, SdpState, MediaStream, read_media, save_media}

save_media-some :
    (s : SdpState) (m : MediaStream) → s.current_media ≡ some m → save_media s ≡ s.saved ++ m ∷ []
save_media-some s m c = rw (save_media, c) refl

-- An `m=` line whose port is not a number up to 65535, or that has fewer than three parts, lists
-- the stream before it once more: that stream stays the current one, the later attributes are its
-- own, and it is saved again at the next `m=` line or at the end of the body.
pub media_line-doubles :
    (value : Bytes) (s : SdpState) (m : MediaStream)
    → read_media (fields value) ≡ none
    → s.current_media ≡ some m
    → (save_media (media_line value s) ≡ save_media s ++ m ∷ [])
      × ((media_line value s).current_media ≡ some m)
unfolding media_line
media_line-doubles value s m e c =
    rw (media_line, e) (save_media-some (record s { saved = save_media s }) m c, c)
