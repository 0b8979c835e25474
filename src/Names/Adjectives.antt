-- ===== src/Names/Adjectives.antt =====
-- internal/names/names.go: the adjectives.
use Prim.Native.String.{String}
use cifuzz.Base.{List, [], ◌∷◌, ◌++◌}

abbrev left_a_to_g : List String
left_a_to_g =
    "able" ∷ "admiring" ∷ "adventurous" ∷ "adoring" ∷ "affectionate" ∷ "agitated" ∷ "amazing"
    ∷ "angry" ∷ "awesome" ∷ "beautiful" ∷ "blissful" ∷ "bold" ∷ "brave" ∷ "brilliant" ∷ "busy"
    ∷ "charming" ∷ "clever" ∷ "cool" ∷ "compassionate" ∷ "competent" ∷ "condescending" ∷ "confident"
    ∷ "crafty" ∷ "cranky" ∷ "dangerous" ∷ "daunting" ∷ "dazzling" ∷ "determined" ∷ "distracted"
    ∷ "dreamy" ∷ "dutiful" ∷ "eager" ∷ "ecstatic" ∷ "elated" ∷ "elegant" ∷ "eloquent" ∷ "epic"
    ∷ "exciting" ∷ "fantastic" ∷ "festive" ∷ "flying" ∷ "focused" ∷ "friendly" ∷ "frosty" ∷ "funky"
    ∷ "funny" ∷ "gallant" ∷ "gifted" ∷ "giggling" ∷ "goofy" ∷ "gracious" ∷ "great" ∷ "grinning"
    ∷ "grumpy" ∷ []

abbrev left_h_to_z : List String
left_h_to_z =
    "happy" ∷ "helpful" ∷ "hilarious" ∷ "hopeful" ∷ "hungry" ∷ "hyperactive" ∷ "illustrious"
    ∷ "impressive" ∷ "incredible" ∷ "infallible" ∷ "ingenious" ∷ "inspiring" ∷ "intelligent"
    ∷ "interesting" ∷ "iridescent" ∷ "jazzy" ∷ "jittery" ∷ "jolly" ∷ "jovial" ∷ "juggling" ∷ "keen"
    ∷ "kind" ∷ "laughing" ∷ "leaping" ∷ "lovely" ∷ "loving" ∷ "lucid" ∷ "magical" ∷ "majestic"
    ∷ "marvelous" ∷ "mellow" ∷ "merry" ∷ "mighty" ∷ "mystifying" ∷ "modest" ∷ "musical" ∷ "mystical"
    ∷ "nerdy" ∷ "nervous" ∷ "nice" ∷ "nimble" ∷ "nifty" ∷ "nostalgic" ∷ "obnoxious" ∷ "objective"
    ∷ "observing" ∷ "odd" ∷ "opportunistic" ∷ "optimistic" ∷ "peaceful" ∷ "peachy" ∷ "pedantic"
    ∷ "pensive" ∷ "philosophical" ∷ "photogenic" ∷ "poetic" ∷ "practical" ∷ "pragmatic"
    ∷ "predictive" ∷ "pretty" ∷ "priceless" ∷ "prickly" ∷ "pristine" ∷ "proud" ∷ "quick" ∷ "quiet"
    ∷ "quirky" ∷ "quizzical" ∷ "radical" ∷ "rational" ∷ "reasonable" ∷ "rebellious" ∷ "relaxed"
    ∷ "reverent" ∷ "romantic" ∷ "rowdy" ∷ "serene" ∷ "sharp" ∷ "silly" ∷ "sleepy" ∷ "smooth"
    ∷ "spectacular" ∷ "spunky" ∷ "stoic" ∷ "strange" ∷ "stressed" ∷ "suspicious" ∷ "sweet"
    ∷ "temperamental" ∷ "tender" ∷ "thirsty" ∷ "thoughtful" ∷ "ticklish" ∷ "tiny" ∷ "tough"
    ∷ "triumphant" ∷ "trusting" ∷ "trustworthy" ∷ "twirling" ∷ "unbelievable" ∷ "understanding"
    ∷ "unruffled" ∷ "unruly" ∷ "untamed" ∷ "upbeat" ∷ "veracious" ∷ "vibrant" ∷ "vigilant"
    ∷ "vigorous" ∷ "wandering" ∷ "wild" ∷ "witty" ∷ "wizardly" ∷ "wonderful" ∷ "yodeling"
    ∷ "youthful" ∷ "zealous" ∷ "zen" ∷ "zooming" ∷ []

abbrev pub left : List String
left = left_a_to_g ++ left_h_to_z
