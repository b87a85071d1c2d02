-- ===== src/Password/Denylist.antt =====
-- internal/util/password/denylist.txt
use goauth_server.Prelude.{String, List, [], ◌∷◌}

unfoldable pub denylist : List String
denylist =
    "password" ∷ "password1" ∷ "password123" ∷ "123456789" ∷ "12345678" ∷ "1234567890" ∷ "qwerty123"
    ∷ "iloveyou" ∷ "admin" ∷ "letmein" ∷ "welcome" ∷ "monkey" ∷ "dragon" ∷ "master" ∷ "sunshine"
    ∷ "princess" ∷ "football" ∷ "shadow" ∷ "superman" ∷ "michael" ∷ "jessica" ∷ "password2"
    ∷ "hello123" ∷ "charlie" ∷ "donald" ∷ "password11" ∷ "password12" ∷ "password13" ∷ "password14"
    ∷ "password15" ∷ "password16" ∷ "password17" ∷ "password18" ∷ "password19" ∷ "password20"
    ∷ "abc123456" ∷ "baseball" ∷ "starwars" ∷ "batman" ∷ "chocolate" ∷ "hunter" ∷ "hockey"
    ∷ "internet" ∷ "ranger" ∷ "solo" ∷ "thunder" ∷ "access" ∷ "pass1234" ∷ "pass12345" ∷ "passw0rd"
    ∷ "p@ssword" ∷ "p@ssw0rd" ∷ "qazwsx" ∷ "qweasdzxc" ∷ "1q2w3e4r" ∷ "aaaaaa" ∷ "aaaaaa1"
    ∷ "abc12345" ∷ "abcd1234" ∷ "asdfgh" ∷ "asdfghjkl" ∷ "admin123" ∷ "administrator" ∷ "welcome1"
    ∷ "login123" ∷ "test123" ∷ "test1234" ∷ "trustno1" ∷ "mustang" ∷ "ferrari" ∷ "porsche"
    ∷ "corvette" ∷ "harley" ∷ "dakota" ∷ "cheese" ∷ "pepper" ∷ "ginger" ∷ "cookie" ∷ "butter"
    ∷ "maggie" ∷ "summer" ∷ "winter" ∷ "spring" ∷ "autumn" ∷ "flower" ∷ "orange" ∷ "purple"
    ∷ "silver" ∷ "golden" ∷ "eagle" ∷ "falcon" ∷ "tiger" ∷ "shark" ∷ "dragon1" ∷ "superman1"
    ∷ "batman1" ∷ "spiderman" ∷ "ironman" ∷ "captain" ∷ "freedom" ∷ "america" ∷ "liberty"
    ∷ "justice" ∷ "secret" ∷ "private" ∷ "secure" ∷ "security" ∷ "monkey1" ∷ "dragon2" ∷ "master1"
    ∷ "hello1" ∷ "welcome12" ∷ "p@ssword1234" ∷ []
