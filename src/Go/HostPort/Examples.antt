-- ===== src/Go/HostPort/Examples.antt =====
-- Runs of split_host_port on the shapes of addresses.
use passage.Base.{◌≡◌, refl, codes, [], ok, err}
use passage.Go.HostPort.{split_host_port, too_many_colons, unexpected_close, missing_port}

split_named : split_host_port (codes "localhost:80") ≡ ok (codes "localhost", codes "80")
unfolding split_host_port
split_named = refl

split_v6 : split_host_port (codes "[::1]:443") ≡ ok (codes "::1", codes "443")
unfolding split_host_port
split_v6 = refl

split_bare_v6 : split_host_port (codes "::1:443") ≡ err too_many_colons
unfolding split_host_port
split_bare_v6 = refl

split_any : split_host_port (codes ":80") ≡ ok ([], codes "80")
unfolding split_host_port
split_any = refl

split_bad : split_host_port (codes "host]:80") ≡ err unexpected_close
unfolding split_host_port
split_bad = refl

split_none : split_host_port (codes "host") ≡ err missing_port
unfolding split_host_port
split_none = refl
