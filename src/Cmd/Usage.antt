-- ===== src/Cmd/Usage.antt =====
-- The texts that main of cmd/passage/main.go prints itself: the version and usage.
use passage.Cmd.{Action, run, print_version, print_usage, refuse}
use passage.Base.{Bytes, List, [], codes, ◌++◌, ◌∷◌}

abbrev pub version : Bytes
version = codes "1.0.1"

-- The lines of usage. The dash of the first one is three bytes in UTF-8.
unfoldable pub usage : List Bytes
usage =
    (codes "passage "
      ++ (version
          ++ (b' ' ∷ (226 ∷ (128 ∷ (148 ∷ codes " secure single-port reverse TCP tunnel"))))))
    ∷ ([]
        ∷ (codes "Usage:"
            ∷ (codes "  passage server       -config <file>"
                ∷ (codes "  passage client       -config <file>"
                    ∷ (codes "  passage verify       -config <file>"
                        ∷ (codes "  passage keygen       -out    <file> -pq-out <file>"
                            ∷ (codes "  passage pq-keygen    -out    <file>"
                                ∷ (codes "  passage fingerprint  <cert.pem>"
                                    ∷ (codes
                                          "  passage quick-docker [-out <dir>] [-force] <spec.yaml>"
                                        ∷ (codes "  passage version"
                                            ∷ ([]
                                                ∷ (codes
                                                      "Run 'passage <subcommand> -h' for the flags of any subcommand."
                                                    ∷ []))))))))))))

-- What main prints on the standard output, but for what a subcommand prints.
unfoldable pub printed : Action → List Bytes
unfolding usage
printed (run sub args) = []
printed print_version = version ∷ []
printed print_usage = usage
printed refuse = []
