-- ===== src/Names/Nouns.antt =====
-- internal/names/names.go: the nouns.
use Prim.Native.String.{String}
use cifuzz.Base.{List, [], ◌∷◌, ◌++◌}

abbrev right_a_to_f : List String
right_a_to_f =
    "aal" ∷ "albatross" ∷ "alligator" ∷ "alpaca" ∷ "amoeba" ∷ "anemone" ∷ "angelfish" ∷ "ant"
    ∷ "anteater" ∷ "antelope" ∷ "ape" ∷ "arachnid" ∷ "armadillo" ∷ "axolotl" ∷ "baboon" ∷ "badger"
    ∷ "barnacle" ∷ "barracuda" ∷ "bat" ∷ "beagle" ∷ "bear" ∷ "beaver" ∷ "bee" ∷ "beetle" ∷ "bison"
    ∷ "blackbird" ∷ "blowfish" ∷ "bobcat" ∷ "bonobo" ∷ "bull" ∷ "bunny" ∷ "camel" ∷ "capybara"
    ∷ "cardinal" ∷ "caribou" ∷ "cat" ∷ "caterpillar" ∷ "chameleon" ∷ "cheetah" ∷ "chickadee"
    ∷ "chicken" ∷ "chinchilla" ∷ "chipmunk" ∷ "chupacabra" ∷ "cobra" ∷ "condor" ∷ "cow" ∷ "coyote"
    ∷ "crab" ∷ "crane" ∷ "crocodile" ∷ "crow" ∷ "deer" ∷ "dodo" ∷ "dog" ∷ "dolphin" ∷ "donkey"
    ∷ "dove" ∷ "duck" ∷ "eagle" ∷ "earthworm" ∷ "eel" ∷ "elephant" ∷ "elk" ∷ "emu" ∷ "escargot"
    ∷ "falcon" ∷ "fawn" ∷ "fennec" ∷ "ferret" ∷ "firefly" ∷ "fish" ∷ "flamingo" ∷ "fly" ∷ "fox"
    ∷ "frog" ∷ []

abbrev right_g_to_m : List String
right_g_to_m =
    "gazelle" ∷ "gecko" ∷ "gerbil" ∷ "gibbon" ∷ "giraffe" ∷ "gnat" ∷ "gnu" ∷ "goat" ∷ "goose"
    ∷ "gopher" ∷ "gorilla" ∷ "groundhog" ∷ "gull" ∷ "guppy" ∷ "hamster" ∷ "hare" ∷ "hawk"
    ∷ "hedgehog" ∷ "hen" ∷ "hornet" ∷ "horse" ∷ "hummingbird" ∷ "husky" ∷ "hyena" ∷ "ibex"
    ∷ "iguana" ∷ "impala" ∷ "jackal" ∷ "jaguar" ∷ "jay" ∷ "jaybird" ∷ "jellyfish" ∷ "junebug"
    ∷ "kangaroo" ∷ "kingfisher" ∷ "kitten" ∷ "kiwi" ∷ "koala" ∷ "koi" ∷ "kolibri" ∷ "kookaburra"
    ∷ "kouprey" ∷ "kowari" ∷ "kudu" ∷ "labrador" ∷ "ladybug" ∷ "lamb" ∷ "lemming" ∷ "lemur"
    ∷ "leopard" ∷ "lion" ∷ "lizard" ∷ "llama" ∷ "lobster" ∷ "lynx" ∷ "macaque" ∷ "macaw" ∷ "magpie"
    ∷ "mallard" ∷ "mammoth" ∷ "manatee" ∷ "manta" ∷ "mantis" ∷ "marmot" ∷ "meerkat" ∷ "mink"
    ∷ "mockingbird" ∷ "mole" ∷ "monkey" ∷ "moose" ∷ "mouse" ∷ "mule" ∷ []

abbrev right_n_to_z : List String
right_n_to_z =
    "narwhal" ∷ "nightingale" ∷ "nightjar" ∷ "nutria" ∷ "ocelot" ∷ "octopus" ∷ "okapi" ∷ "opossum"
    ∷ "orangutan" ∷ "orca" ∷ "ostrich" ∷ "otter" ∷ "owl" ∷ "ox" ∷ "oyster" ∷ "panda" ∷ "pangolin"
    ∷ "panther" ∷ "parakeet" ∷ "parrot" ∷ "peafowl" ∷ "peccary" ∷ "pelican" ∷ "penguin" ∷ "pheasant"
    ∷ "pig" ∷ "pigeon" ∷ "piglet" ∷ "piranha" ∷ "platypus" ∷ "polecat" ∷ "porcupine" ∷ "possum"
    ∷ "primate" ∷ "pronghorn" ∷ "protozoa" ∷ "puffin" ∷ "puma" ∷ "python" ∷ "quokka" ∷ "rabbit"
    ∷ "raccoon" ∷ "rattlesnake" ∷ "raven" ∷ "reindeer" ∷ "rhea" ∷ "rhino" ∷ "roadrunner" ∷ "rooster"
    ∷ "salamander" ∷ "salmon" ∷ "scallop" ∷ "scorpion" ∷ "seagull" ∷ "seahorse" ∷ "seal" ∷ "shark"
    ∷ "sheep" ∷ "sloth" ∷ "snail" ∷ "snake" ∷ "sparrow" ∷ "spider" ∷ "squid" ∷ "squirrel"
    ∷ "starfish" ∷ "stingray" ∷ "swallow" ∷ "swan" ∷ "swordfish" ∷ "tapir" ∷ "tarantula" ∷ "tiger"
    ∷ "toad" ∷ "tortoise" ∷ "toucan" ∷ "trout" ∷ "turkey" ∷ "turtle" ∷ "urchin" ∷ "viper"
    ∷ "vulture" ∷ "wallaby" ∷ "walrus" ∷ "wasp" ∷ "weasel" ∷ "whale" ∷ "wolf" ∷ "wolverine"
    ∷ "wombat" ∷ "woodchuck" ∷ "worm" ∷ "zebra" ∷ []

abbrev pub right : List String
right = right_a_to_f ++ (right_g_to_m ++ right_n_to_z)
