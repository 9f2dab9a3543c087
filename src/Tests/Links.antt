-- ===== src/Tests/Links.antt =====
-- The two ends of a direct link.
use void_bridge.Base.{refl, true, false, codes}
use void_bridge.Protocol.Link
use void_bridge.Protocol.Link.{LinkCipher, IsPaired, new_cipher, seal_frame}

abbrev dialer : LinkCipher
dialer = new_cipher (codes "k") false

abbrev listener : LinkCipher
listener = new_cipher (codes "k") true

ends-IsPaired : IsPaired dialer listener
unfolding new_cipher
ends-IsPaired = record { same_key = refl; same_dir = refl; same_count = refl }
